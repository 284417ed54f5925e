-- ===== src/Transport/SocketLive/Draining.antt =====
-- The loops that read the frames of the connection come to an end.
use inerceptor_command_sim.Base.{
  ℕ, zero, suc, ◌≤◌, ◌<◌, ◌≡◌, ◌≢◌, refl, List, [], ◌∷◌, Option, none, some, arith, length, take,
  drop, length-drop, ltb, ◌==◌, if◌then◌else◌, Option-cases, Bool-cases, inl, inr,
}
use inerceptor_command_sim.Base.Result.{Result, ok, throws, ◌>>=◌}
use inerceptor_command_sim.Base.Text.{Text}
use inerceptor_command_sim.Floats.{FloatOps}
use inerceptor_command_sim.Protocol.Frame.{
  FramedMessage, decode_binary_frame, try_decode_binary_frame,
}
use inerceptor_command_sim.Transport.SocketLive.State.{
  Clock, FrameFormat, SocketLive, Handled, ◌>=>◌,
}
use inerceptor_command_sim.Transport.SocketLive.Sockets.{SendAnswer}
use inerceptor_command_sim.Transport.SocketLive.Delivery.{
  disconnect_station, reset_viewer_delivery_cursor,
}
use inerceptor_command_sim.Transport.SocketLive.Frames.{
  cut_line, prepend, caught, process_tcp_frame, process_tcp_wire, drain_lines, drain_frames,
  drain_as, drain,
}
use inerceptor_command_sim.Transport.SocketLive.Sends.{pending-IsSend}
use inerceptor_command_sim.Transport.SocketLive.Faults.{decode-empty}
use inerceptor_command_sim.Transport.SocketLive.Kept.{IsKept, HoldsAfter, if-kept}
use inerceptor_command_sim.Transport.SocketLive.Kept.Frames.{
  process_tcp_frame-kept, process_tcp_wire-kept, caught-kept,
}

-- At most `n` bytes wait in the buffer.
abbrev pub Fits : {A : Type 0} → ℕ → SocketLive A → Type 0
Fits n t = length t.tcp_buffer ≤ n

module _ {A : Type 0} (F : FloatOps A) where
  -- No handler puts bytes into the buffer.
  pub Fits-IsKept : (n : ℕ) → IsKept F (Fits n)
  unfolding disconnect_station reset_viewer_delivery_cursor
  Fits-IsKept n = record {
    queued = λ lines sequence t h. h;
    moved = λ s t k h. h;
    sent = λ t h. rw (pending-IsSend F t).tcp_buffer h;
    joined = λ id t h. h;
    left = λ reason t h. ground arith;
    reset = λ reason w t h. ground arith;
    reviewed = λ p t h. h;
  }

-- A line that is cut from the buffer makes it shorter.
record IsCut (b : Text) (o : Option (Text × Text)) : Type 0 where
  shorter : (cut : Text × Text) → o ≡ some cut → length cut.1 < length b

prepend-IsCut :
    (c : ℕ) (b : Text) (o : Option (Text × Text)) → IsCut b o → IsCut (c ∷ b) (prepend c o)
prepend-IsCut c b none h = record { shorter = λ cut e. ground arith }
prepend-IsCut c b (some (line, rest)) h = record {
  shorter = λ cut e. ground (arith, h.shorter (line, rest) refl);
}

cut_line-IsCut : (b : Text) → IsCut b (cut_line b)
unfolding cut_line
cut_line-IsCut [] = record { shorter = λ cut e. ground arith }
cut_line-IsCut (c ∷ b) =
    let more = prepend-IsCut c b (cut_line b) (cut_line-IsCut b) in
    let here : IsCut (c ∷ b) (some ([], b)) = record { shorter = λ cut e. ground arith } in
    search (if-kept (IsCut (c ∷ b)))

-- A frame that is taken from the buffer makes it shorter.
record IsTaken (b : Text) (r : Result (Option FramedMessage × Text)) : Type 0 where
  shorter : (m : FramedMessage) (rest : Text) → r ≡ ok (some m, rest) → length rest < length b

bind-IsTaken :
    {X : Type 0} (b : Text) (r : Result X) (f : X → Result (Option FramedMessage × Text))
    → ((x : X) → r ≡ ok x → IsTaken b (f x))
    → IsTaken b (r >>= f)
bind-IsTaken b (ok x) f h = h x refl
bind-IsTaken b (throws e) f h = record { shorter = λ m rest e. ground arith }
bind-IsTaken b Result.undefined f h = record { shorter = λ m rest e. ground arith }

none_taken : (b : Text) → IsTaken b (ok (none, b))
none_taken b = record { shorter = λ m rest e. ground arith }

taken :
    (b : Text) (n : ℕ) (m : FramedMessage)
    → 8 ≤ length b
    → decode_binary_frame (take n b) ≡ ok m
    → IsTaken b (ok (some m, drop n b))
taken b zero m long e = record { shorter = λ m' rest k. absurd (ground (arith, decode-empty)) }
taken b (suc n) m long e = record { shorter = λ m' rest k. ground (arith, length-drop (suc n) b) }

try_decode-IsTaken : (b : Text) → IsTaken b (try_decode_binary_frame b)
unfolding try_decode_binary_frame
try_decode-IsTaken b = elim (Bool-cases (ltb (length b) 8)) [
  | inl short ↦ rw short (none_taken b)
  | inr long ↦
      let enough : 8 ≤ length b = ground arith in
      rw long (search (if-kept (IsTaken b), bind-IsTaken b, none_taken, taken b) depth 12)
]

module _ {A : Type 0} where
  -- Nothing that can be read is left: no whole line. An exception is not among the outcomes.
  abbrev pub HasNoLine : Handled A → Type 0
  HasNoLine (Handled.done t) = cut_line t.tcp_buffer ≡ none
  HasNoLine (Handled.failed e t) = ⊥
  HasNoLine Handled.undefined = Unit

  -- No whole frame, or the decoder fails on what is left.
  abbrev pub HasNoFrame : Handled A → Type 0
  HasNoFrame (Handled.done t) =
      (rest : Text) × (try_decode_binary_frame t.tcp_buffer ≡ ok (none, rest))
  HasNoFrame (Handled.failed e t) = try_decode_binary_frame t.tcp_buffer ≡ throws e
  HasNoFrame Handled.undefined = Unit

  abbrev pub IsDrained : FrameFormat → Handled A → Type 0
  IsDrained FrameFormat.json_line h = HasNoLine h
  IsDrained FrameFormat.binary h = HasNoFrame h

-- The outcomes of the decoder.
pub data IsCase (r : Result (Option FramedMessage × Text)) : Type 0 where
  fails : (x : Text) → r ≡ throws x → IsCase r
  wild : r ≡ Result.undefined → IsCase r
  waits : (rest : Text) → r ≡ ok (none, rest) → IsCase r
  takes : (frame : FramedMessage) (rest : Text) → r ≡ ok (some frame, rest) → IsCase r

pub taken_cases : (r : Result (Option FramedMessage × Text)) → IsCase r
taken_cases (throws x) = IsCase.fails x refl
taken_cases Result.undefined = IsCase.wild refl
taken_cases (ok (none, rest)) = IsCase.waits rest refl
taken_cases (ok (some frame, rest)) = IsCase.takes frame rest refl

record IsCaught {A : Type 0} (h : Handled A) : Type 0 where
  caught : (e : Text) (t : SocketLive A) → h ≢ Handled.failed e t

module _ {A : Type 0} where
  done-IsCaught : (t : SocketLive A) → IsCaught (Handled.done t)
  done-IsCaught t = record { caught = λ e u. ground arith }

  caught-IsCaught : (h : Handled A) → IsCaught (caught h)
  caught-IsCaught (Handled.done t) = done-IsCaught t
  caught-IsCaught (Handled.failed e t) = done-IsCaught _
  caught-IsCaught Handled.undefined = record { caught = λ e u. ground arith }

module _ {A : Type 0} (F : FloatOps A) (c : Clock) (sends : ℕ → List SendAnswer) where
  -- The rest of a loop, after a round that has not thrown.
  lines_after :
      (fuel n : ℕ) (h : Handled A)
      → HoldsAfter (Fits n) h
      → IsCaught h
      → ((t : SocketLive A) → Fits n t → HasNoLine (drain_lines F c sends fuel t))
      → HasNoLine (h >=> drain_lines F c sends fuel)
  lines_after fuel n (Handled.done t) h l k = k t h.holds
  lines_after fuel n (Handled.failed e t) h l k = absurd (l.caught e t refl)
  lines_after fuel n Handled.undefined h l k = tt

  frames_after :
      (fuel n : ℕ) (h : Handled A)
      → HoldsAfter (Fits n) h
      → IsCaught h
      → ((t : SocketLive A) → Fits n t → HasNoFrame (drain_frames F c sends fuel t))
      → HasNoFrame (h >=> drain_frames F c sends fuel)
  frames_after fuel n (Handled.done t) h l k = k t h.holds
  frames_after fuel n (Handled.failed e t) h l k = absurd (l.caught e t refl)
  frames_after fuel n Handled.undefined h l k = tt

  drain_lines-HasNoLine :
      (fuel : ℕ) (t : SocketLive A)
      → length t.tcp_buffer < fuel
      → HasNoLine (drain_lines F c sends fuel t)
  unfolding drain_lines
  drain_lines-HasNoLine zero t fits = absurd (omega arith)
  drain_lines-HasNoLine (suc fuel) t fits = elim (Option-cases (cut_line t.tcp_buffer)) [
    | inl e ↦ rw (e, drain_lines) e
    | inr ((wire, rest), e) ↦
        let t' = record t { tcp_buffer = rest } in
        let body =
          if length wire == 0
          then Handled.done t'
          else caught (process_tcp_wire F c sends wire t') in
        let law = Fits-IsKept F (length rest) in
        let skipped : HoldsAfter (Fits (length rest)) (Handled.done t') = record {
          holds = omega arith;
        } in
        let processed =
          caught-kept F c (Fits (length rest)) law (process_tcp_wire F c sends wire t')
            (process_tcp_wire-kept F c (Fits (length rest)) law sends wire t' (omega arith)) in
        let shorter = (cut_line-IsCut t.tcp_buffer).shorter (wire, rest) e in
        rw (e, drain_lines)
          (lines_after fuel (length rest) body
            (if-kept (HoldsAfter (Fits (length rest))) (length wire == 0) (Handled.done t') _
              skipped processed)
            (if-kept IsCaught (length wire == 0) (Handled.done t') _ (done-IsCaught t')
              (caught-IsCaught (process_tcp_wire F c sends wire t')))
            (λ u k. drain_lines-HasNoLine fuel u (omega arith)))
  ]

  drain_frames-HasNoFrame :
      (fuel : ℕ) (t : SocketLive A)
      → length t.tcp_buffer < fuel
      → HasNoFrame (drain_frames F c sends fuel t)
  unfolding drain_frames
  drain_frames-HasNoFrame zero t fits = absurd (omega arith)
  drain_frames-HasNoFrame (suc fuel) t fits =
      elim (taken_cases (try_decode_binary_frame t.tcp_buffer)) [
        | IsCase.fails x e ↦ rw (e, drain_frames) e
        | IsCase.wild e ↦ rw (e, drain_frames) tt
        | IsCase.waits rest e ↦ rw (e, drain_frames) (rest, e)
        | IsCase.takes frame rest e ↦
            let t' = record t { tcp_buffer = rest } in
            let law = Fits-IsKept F (length rest) in
            let shorter = (try_decode-IsTaken t.tcp_buffer).shorter frame rest e in
            let body = process_tcp_frame F c sends frame t' in
            rw (e, drain_frames)
              (frames_after fuel (length rest) (caught body)
                (caught-kept F c (Fits (length rest)) law body (
                  process_tcp_frame-kept F c (Fits (length rest)) law sends frame t' (omega arith)))
                (caught-IsCaught body) (λ u k. drain_frames-HasNoFrame fuel u (omega arith)))
      ]

  drained : (f : FrameFormat) (t : SocketLive A) → IsDrained f (drain_as F c sends f t)
  drained FrameFormat.json_line t =
      drain_lines-HasNoLine (suc (length t.tcp_buffer)) t (omega arith)
  drained FrameFormat.binary t = drain_frames-HasNoFrame (suc (length t.tcp_buffer)) t (omega arith)

  -- One round for each byte of the buffer and one more are enough for the loop over the frames: it
  -- ends because nothing is left to be read. On JSON lines it never throws, and what is left has no
  -- newline; on binary frames what is left holds no whole frame, or it throws because the decoder
  -- throws on what is left. (A handler may leave the defined behaviour of C++.)
  pub drain-IsDrained : (t : SocketLive A) → IsDrained t.tcp_frame_format (drain F c sends t)
  unfolding drain
  drain-IsDrained t = drained t.tcp_frame_format t
