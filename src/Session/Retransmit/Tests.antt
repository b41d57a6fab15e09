-- ===== src/Session/Retransmit/Tests.antt =====
-- Tests of the retransmission window (crates/hft-session/src/retransmit.rs).
use hft_engine_rs.Prelude.{
  ℕ, ◌+◌, ◌-◌, ◌≡◌, refl, [], ◌∷◌, arith, length, drop, map, min, replicate,
}
use hft_engine_rs.Session.Retransmit.{
  RetainedFrame, RetransmitBuffer, slice, new, retain, confirm_through, since, remaining_capacity,
}
use hft_engine_rs.Session.Retransmit.Window.{IsWindow, retain-since, confirm_through_lem}

abbrev frame : ℕ → ℕ → RetainedFrame
frame sequence byte = record { sequence = sequence; bytes = byte ∷ replicate 45 0; len = 1 }

-- Frames 4 and 5 of a window of 3.
abbrev window : RetransmitBuffer
window = record { entries = frame 4 10 ∷ frame 5 11 ∷ []; capacity = 3; next_sequence = 6 }

opened : Unit {0}
unfolding slice new retain confirm_through since remaining_capacity
opened = tt

window-IsWindow : IsWindow 4 window
window-IsWindow = record { ascends = (refl, (refl, refl)); within = omega arith }

retain_runs :
    (retain 2 (8 ∷ []) (retain 1 (7 ∷ []) (new 2)).1).1
    ≡ record { entries = frame 1 7 ∷ frame 2 8 ∷ []; capacity = 2; next_sequence = 3 }
unfolding opened
retain_runs = refl

retain-since_example :
    (6 ≡ window.next_sequence)
    × (map slice (since 6 (retain 6 (12 ∷ []) window).1) ≡ (12 ∷ []) ∷ [])
    × ((retain 6 (12 ∷ []) window).1.next_sequence ≡ 6 + 1)
    × (remaining_capacity (retain 6 (12 ∷ []) window).1 + 1 ≡ remaining_capacity window)
unfolding opened
retain-since_example = retain-since 4 window 6 (12 ∷ []) window-IsWindow refl

confirm_through_lem_example :
    ((confirm_through 4 window).0 ≡ min (4 + 1 - 4) (length window.entries))
    × IsWindow (4 + (confirm_through 4 window).0) (confirm_through 4 window).1
    × (since 5 (confirm_through 4 window).1 ≡ since 5 window)
    × (since 5 window ≡ drop (5 - 4) window.entries)
confirm_through_lem_example = confirm_through_lem 4 window 4 5 window-IsWindow (omega arith)
