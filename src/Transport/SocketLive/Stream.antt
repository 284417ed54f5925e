-- ===== src/Transport/SocketLive/Stream.antt =====
-- What the loops of the sockets do with the bytes of their queues.
use inerceptor_command_sim.Base.{◌≡◌, refl, sym, List, [], ◌∷◌, ◌++◌, take, drop, take-drop}
use mathlib.Core.List.{append_assoc, append-nil}
use inerceptor_command_sim.Base.Text.{Text}
use inerceptor_command_sim.Transport.SocketLive.Sockets.{
  SendAnswer, Flushed, after_send, flush_lines,
}

-- The bytes of the lines, one after the other.
abbrev pub stream : List Text → Text
stream [] = []
stream (line ∷ queue) = line ++ stream queue

-- What is handed over and what is left make up the queue.
abbrev IsSplit : Flushed Text → List Text → Type 0
IsSplit f queue = f.taken ++ stream f.left ≡ stream queue

after_send-IsSplit :
    (front rest line : Text) (queue : List Text) (more : Flushed Text)
    → front ++ rest ≡ line
    → IsSplit more queue
    → IsSplit (after_send front rest queue more) (line ∷ queue)
after_send-IsSplit front [] line queue more e h =
    rw (sym e, sym h) (simp (append_assoc, append-nil))
after_send-IsSplit front (c ∷ rest) line queue more e h = rw (sym e) (simp append_assoc)

-- Whatever ::send answers, the bytes that it takes and then those that stay queued are the bytes of
-- the queue: none is lost, repeated or put in another order, also where a line is sent in part.
pub flush_lines-IsSplit :
    (answers : List SendAnswer) (queue : List Text)
    → (flush_lines answers queue).taken ++ stream (flush_lines answers queue).left ≡ stream queue
unfolding flush_lines
flush_lines-IsSplit answers [] = refl
flush_lines-IsSplit [] (line ∷ queue) = refl
flush_lines-IsSplit (SendAnswer.would_block ∷ answers) (line ∷ queue) = refl
flush_lines-IsSplit (SendAnswer.error e ∷ answers) (line ∷ queue) = refl
flush_lines-IsSplit (SendAnswer.sent n ∷ answers) (line ∷ queue) =
    after_send-IsSplit (take n line) (drop n line) line queue (flush_lines answers queue)
      (take-drop n line) (flush_lines-IsSplit answers queue)
