-- ===== src/Server/Input.antt =====
-- rtmp_server_input: the handshake, and what follows it. A round of the loop either goes on with the
-- bytes that are left or returns.
use simple_rtmp.Base.{
  ℕ, zero, suc, ◌+◌, ◌-◌, List, [], ◌∷◌, Option, none, some, min, length, set, take, drop, leb, ltb,
  ◌==◌, if◌then◌else◌,
}
use simple_rtmp.Base.Int.{ℤ, pos, ◌==ℤ◌}
use simple_rtmp.Server.{
  uninit, handshake_0, handshake_1, handshake_2, Context, Library, Handler, M, ◌>>=◌, ret,
}
use simple_rtmp.Server.Messages.{rtmp_server_send_handshake, rtmp_server_send_acknowledgement}

-- `memcpy(payload + start, bytes)`.
abbrev pub copy : List ℕ → ℕ → List ℕ → List ℕ
copy payload start [] = payload
copy payload start (b ∷ bs) = copy (set payload start b) (start + 1) bs

pub data Round : Type 0 where
  more : List ℕ → Round
  stop : ℤ → Round

-- What is done when the second message of the client is complete.
abbrev pub finish : M ℤ
finish c = some (pos 0, record c { handshake_state = handshake_2; handshake_bytes = 0 })

abbrev pub store : List ℕ → Context → Context
store bytes c = record c {
  payload = copy c.payload c.handshake_bytes bytes;
  handshake_bytes = c.handshake_bytes + length bytes;
}

abbrev pub go_on : List ℕ → ℤ → Round
go_on rest r = if r ==ℤ pos 0 then more rest else stop r

module _ (lib : Library) (h : Handler) where
  -- The version byte. The state has changed before the assertion.
  abbrev pub take_version : ℕ → Context → Option Context
  take_version b c =
      if leb b lib.version
      then some (record c { handshake_state = handshake_0; handshake_bytes = 0 })
      else none

  -- What is done when the first one is complete.
  abbrev pub answer : M ℤ
  answer c =
      rtmp_server_send_handshake lib h
        (record c { handshake_state = handshake_1; handshake_bytes = 0 })

  -- Takes n bytes of a message of the handshake; `done` where they are all that it lacked.
  unfoldable pub collect_some : M ℤ → ℕ → List ℕ → M Round
  collect_some done n bytes c =
      let d = store (take n bytes) c in
      if ltb c.handshake_bytes lib.handshake_size
      then (if d.handshake_bytes == lib.handshake_size
          then (done >>= λ r. ret (go_on (drop n bytes) r)) d
          else some (more (drop n bytes), d))
      else none

  -- Takes the bytes that are lacking, or all there are.
  unfoldable pub collect : M ℤ → List ℕ → M Round
  unfolding collect_some
  collect done bytes c =
      collect_some done (min (lib.handshake_size - c.handshake_bytes) (length bytes)) bytes c

  -- What follows the handshake is counted, perhaps acknowledged, and read.
  unfoldable pub read_chunks : List ℕ → M ℤ
  read_chunks bytes =
      rtmp_server_send_acknowledgement lib h (length bytes) >>= λ r. lib.chunk_read bytes

  unfoldable pub round : ℕ → List ℕ → M Round
  unfolding collect read_chunks
  round b bs c = elim c.handshake_state [
    | uninit ↦ elim (take_version b c) [ none ↦ none | some d ↦ some (more bs, d) ]
    | handshake_0 ↦ collect answer (b ∷ bs) c
    | handshake_1 ↦ collect finish (b ∷ bs) c
    | handshake_2 ↦ (read_chunks (b ∷ bs) >>= λ r. ret (stop r)) c
  ]

  -- The loop, on fuel; `none` where it runs out.
  unfoldable pub input_loop : ℕ → List ℕ → M ℤ
  unfolding round
  input_loop fuel [] c = some (pos 0, c)
  input_loop zero (b ∷ bs) c = none
  input_loop (suc fuel) (b ∷ bs) c = elim (round b bs c) [
    | none ↦ none
    | some (stop r, d) ↦ some (r, d)
    | some (more rest, d) ↦ input_loop fuel rest d
  ]

  unfoldable pub rtmp_server_input : List ℕ → M ℤ
  unfolding input_loop
  rtmp_server_input bytes = input_loop (length bytes) bytes
