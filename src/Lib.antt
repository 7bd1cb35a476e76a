-- ===== src/Lib.antt =====
-- Verification of simple_rtmp, a media server that takes RTMP streams in and forwards them over RTMP,
-- HTTP-FLV and RTSP.
--
-- The program. A publisher's session feeds its connection's bytes to an RTMP server context; the media
-- go through a demuxer to the sinks of the stream, which are found by name in a registry. A sink
-- encodes the frames for its protocol and writes them to the channels of the sessions that play the
-- stream; a session writes to its TCP connection.
--
-- The files. Each module models the source files named here, function by function under the source's
-- names; its child modules prove things, and the children called Runs hold tests and instances.
-- - Base: what all share: tests and lists over the native numbers, integers.
-- - Codec: rtmp_codec.h, rtmp_codec.cc.
-- - Frame: frame_buffer.h. A buffer is a record of metadata and bytes, or a window on another buffer.
-- - Sink: channel.h, channel.cc, sink.h, sink.cpp; Sink.Rtmp: rtmp_sink.h, rtmp_sink.cc. Channels are
--   numbers, and what they are written is a log.
-- - Chunk: rtmp_server_context.cc, the functions that compress a message's header and cut the message
--   into chunks. The table of chunk streams is a list, and the receiver is that of the RTMP document.
-- - Server: rtmp_server_context.h and the rest of rtmp_server_context.cc. An operation takes the context
--   and gives its result and the context after it, or a fault: an assertion that fails, or a call of a
--   callback that is not set. The media-server library is a record of functions, among them
--   rtmp_chunk_write and rtmp_chunk_read. Server.Input is rtmp_server_input, Server.Start is
--   rtmp_server_start, Server.Handlers has the callbacks and Server.Messages what is sent.
-- - Rtsp: rtsp_server_context.h and rtsp_server_context.cc; Rtsp.Parser: rtsp_parser.h, which collects
--   the events of the HTTP parser; Rtsp.Transports: the value of a Transport header. The HTTP parser,
--   sscanf and atoi are parameters.
-- - Connection: tcp_connection.h, tcp_connection.cc. The executor's queue is part of the state; calls,
--   executor turns and socket completions are events, in any order.
-- - Timer: timer_task_manger.h, timer_task_manger.cc. The clock is an argument, and what callbacks do
--   to the manager is a parameter.
-- - Demuxer: rtmp_demuxer.h, rtmp_demuxer.cc; Demuxer.H264 and Demuxer.Aac: the decoders that it makes,
--   rtmp_h264_decoder.h, rtmp_h264_decoder.cc, rtmp_aac_decoder.h, rtmp_aac_decoder.cc; Demuxer.Hevc: one
--   that it does not make, rtmp_hevc_decoder.h, rtmp_hevc_decoder.cc. The media-server library's
--   reading of tags, configurations and AMF is a parameter, and what goes out is a log.
-- - RtspSink: rtsp_sink.h, rtsp_sink.cc; RtspSink.H264 and RtspSink.Aac: the encoders that it makes,
--   rtsp_h264_encoder.h, rtsp_h264_encoder.cc, rtsp_aac_encoder.h, rtsp_aac_encoder.cc;
--   RtspSink.Track and RtspSink.Description: their tracks and what these say of themselves,
--   rtsp_track.cc, rtsp_h264_track.cc, rtsp_aac_track.cc. The library's packing into RTP and Boost's
--   base64 are parameters.
-- - RtspSession: rtsp_forward_session.h, rtsp_forward_session.cc. The session's state and what it writes
--   of frames; RtspSession.Requests: its handlers; RtspSession.Events: all that happens to it.
-- - FlvSession: flv_forward_session.h, flv_forward_session.cc; HttpSession: http_session.h,
--   http_session.cc, which opens it. Targets are lists of bytes, and what goes out is a log.
-- - RtmpEncoder: rtmp_encoder.h; RtmpEncoder.Aac: rtmp_aac_encoder.h, rtmp_aac_encoder.cc;
--   RtmpEncoder.H264: rtmp_h264_encoder.h, rtmp_h264_encoder.cc; RtmpEncoder.Relay puts it into the
--   RTMP sink, and PlaySession.Late this sink in front of a player's session.
-- - RtmpSource: rtmp_source.h, rtmp_source.cc, with the demuxer and both sinks in one state;
--   RtmpSource.Session: rtmp_publish_session.h, rtmp_publish_session.cc.
-- - PlaySession: rtmp_forward_session.h, rtmp_forward_session.cc, with its server context in its state;
--   PlaySession.Init: init of rtmp_server_context_args in rtmp_server_context.cc.
-- - Gb28181: gb28181_demuxer.cc, gb28181_ps_demuxer.cc, gb28181_source.cc, gb28181_publish_session.cc;
--   Gb28181.Rtp: gb28181_rtp_demuxer.h, gb28181_rtp_demuxer.cc. RTP packets and their queue are parameters.
-- - Executors: execution.h, execution.cc, the choice of an executor. TcpServer: tcp_server.h, the acceptor
--   and the executors that the accepted connections get, of the pool that main.cc gives to four servers.
--
-- Bounds and fuel. Chunk.write_loop has the length of the message as fuel, which is enough as each
-- round sends a byte at least; Server.Input.input_loop and Rtsp.input_loop have the number of bytes,
-- as each round that does not end the loop takes one at least; so have Demuxer.H264.demuxer_loop,
-- Demuxer.Hevc.demuxer_loop, with one more, and RtspSink.H264.scan; RtspSink.Description.digits has one
-- more than the number. Every other recursion is on a list or counts a loop's rounds. Machine integers
-- wrap where the source's do (`% 2 ^ 64` in Timer and RtspSession, `% 2 ^ 32` in Timer, Server,
-- RtspSink.Track, TcpServer and Executors, `% 2 ^ 16` in Rtsp.Transports and Demuxer.Aac).
--
-- Not modelled: the HEVC encoders, which nothing makes, the texts of the RTSP answers, timestamps;
-- logging; sockets, threads and the HTTP parser, which are libraries; the RTP and AMF code of the
-- media-server library, whose sources are not in the repository.
pub mod Base
pub mod Codec
pub mod Frame
pub mod Sink
pub mod Chunk
pub mod Server
pub mod Rtsp
pub mod Connection
pub mod Timer
pub mod Demuxer
pub mod RtspSink
pub mod RtspSession
pub mod FlvSession
pub mod HttpSession
pub mod RtmpEncoder
pub mod RtmpSource
pub mod PlaySession
pub mod Gb28181
pub mod Executors
pub mod TcpServer
