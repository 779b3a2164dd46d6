-- ===== src/Log/Egc/Tests.antt =====
-- `EgcLog` on a few segments.
use inmar_scope.Prelude.{ℕ, ◌≡◌, List, [], ◌∷◌, some, arith, codes}
use inmar_scope.Log.Types.{EgcMessage}
use inmar_scope.Log.Egc.Segments.{entry}
use inmar_scope.Log.Egc.Joining.{joined, unless_empty, texts, any_segment, expected, text_of}
use inmar_scope.Log.Egc.History.{add_all, empty_egc, add_all-text}
use inmar_scope.Log.Egc.{same_message}

abbrev segment : ℕ → ℕ → List ℕ → EgcMessage ℕ
segment c i t = record {
  channel_id = c;
  freq_mhz = 1537;
  frame_number = 1;
  time_utc = [];
  service = [];
  priority = [];
  message_id = i;
  presentation = 0;
  text = t;
}

-- Two segments of message 7 round one of message 8, and one with no text.
abbrev arrivals : List (ℕ × EgcMessage ℕ)
arrivals =
    (0, segment 1 7 (codes "GALE"))
    ∷ (1, segment 1 8 (codes "ICE"))
    ∷ (2, segment 1 7 [])
    ∷ (3, segment 1 7 (codes "WARNING"))
    ∷ []

add_all-text_example :
    text_of (entry 1 7 (add_all empty_egc arrivals).msgs) ≡ some (codes "GALE\nWARNING")
unfolding expected texts any_segment joined unless_empty same_message
add_all-text_example = add_all-text arrivals 1 7 (omega arith)
