-- ===== src/View/ReplayCursor.antt =====
-- common/include/icss/view/replay_cursor.hpp: the cursor into a recorded timeline.
use inerceptor_command_sim.Base.{
  ℕ, ◌+◌, ◌-◌, ◌<◌, ◌≡◌, ◌⊎◌, ltb, leb, ◌==◌, if◌then◌else◌, arith, List, [], ◌∷◌,
}
use inerceptor_command_sim.Base.Word.{u64_mod, add64}

-- The two counters are std::size_t, with 64 bits.
pub record ReplayCursor : Type 0 where
  pub index : ℕ
  pub total : ℕ

unfoldable pub make_replay_cursor : ℕ → ℕ → ReplayCursor
make_replay_cursor total requested_index =
    if total == 0 then record { index = 0; total = 0 } else record {
      index = if leb total requested_index then total - 1 else requested_index;
      total = total;
    }

unfoldable pub step_forward : ReplayCursor → ReplayCursor
step_forward cursor =
    if cursor.total == 0
    then cursor
    else if ltb (add64 cursor.index 1) cursor.total
    then record cursor { index = add64 cursor.index 1 }
    else cursor

unfoldable pub step_backward : ReplayCursor → ReplayCursor
step_backward cursor =
    if ltb 0 cursor.index then record cursor { index = cursor.index - 1 } else cursor

unfoldable pub jump_to : ReplayCursor → ℕ → ReplayCursor
unfolding make_replay_cursor
jump_to cursor requested_index = make_replay_cursor cursor.total requested_index

-- The moves of a review.
pub data Move : Type 0 where
  forward backward : Move
  to : ℕ → Move

unfoldable pub move : Move → ReplayCursor → ReplayCursor
move Move.forward c = step_forward c
move Move.backward c = step_backward c
move (Move.to i) c = jump_to c i

unfoldable pub moves : List Move → ReplayCursor → ReplayCursor
moves [] c = c
moves (m ∷ ms) c = moves ms (move m c)

-- The cursor stands on an entry of the timeline, or at 0 where the timeline is empty.
pub record IsOnEntry (total : ℕ) (c : ReplayCursor) : Type 0 where
  pub same : c.total ≡ total
  pub inside : (c.index < total) ⊎ ((c.index ≡ 0) × (total ≡ 0))

move-IsOnEntry :
    (total : ℕ) (m : Move) (c : ReplayCursor)
    → total < u64_mod
    → IsOnEntry total c
    → IsOnEntry total (move m c)
unfolding move step_forward step_backward jump_to
move-IsOnEntry total Move.forward c fits h = ground (arith, h.same, h.inside)
move-IsOnEntry total Move.backward c fits h = ground (arith, h.same, h.inside)
move-IsOnEntry total (Move.to i) c fits h = ground (arith, h.same, h.inside)

moves-IsOnEntry_from :
    (total : ℕ) (ms : List Move) (c : ReplayCursor)
    → total < u64_mod
    → IsOnEntry total c
    → IsOnEntry total (moves ms c)
unfolding moves
moves-IsOnEntry_from total [] c fits h = h
moves-IsOnEntry_from total (m ∷ ms) c fits h =
    moves-IsOnEntry_from total ms (move m c) fits (move-IsOnEntry total m c fits h)

make-IsOnEntry : (total i : ℕ) → IsOnEntry total (make_replay_cursor total i)
unfolding make_replay_cursor
make-IsOnEntry total i = ground arith

-- From any requested start and through any moves the cursor stays on an entry of a timeline of
-- `total` entries (at 0 where there is none), if `total` is a 64-bit size.
pub moves-IsOnEntry :
    (total start : ℕ) (ms : List Move)
    → total < u64_mod
    → IsOnEntry total (moves ms (make_replay_cursor total start))
moves-IsOnEntry total start ms fits =
    moves-IsOnEntry_from total ms (make_replay_cursor total start) fits (make-IsOnEntry total start)

-- One step back undoes one step forward, unless the cursor is on the last entry; there the step
-- forward stays.
pub step_backward-step_forward :
    (c : ReplayCursor)
    → c.index < c.total
    → c.total < u64_mod
    → ((c.index + 1 ≡ c.total) × (step_forward c ≡ c)) ⊎ (step_backward (step_forward c) ≡ c)
unfolding step_forward step_backward
step_backward-step_forward c inside fits = ground arith
