-- ===== src/Stream/Tests.antt =====
-- The theorems on the escape matcher at concrete inputs.
use air_link.Base.{List, [], ◌∷◌, ◌++◌, ℕ, true, arith}
use mathlib.Core.List.{flatten}
use air_link.Stream.{Emit, cleared, feed}
use air_link.Stream.Conserve.{Conserved, feed-Conserved}
use air_link.Stream.Detect.{Detected, Tracks-nil}
use air_link.Stream.First.{feed-Detected}

abbrev plus : List ℕ
plus = 43 ∷ 43 ∷ 43 ∷ []

abbrev takes_all : Emit
takes_all = λ sent block. true

-- "A+++B"
abbrev typed : List ℕ
typed = 65 ∷ 43 ∷ 43 ∷ 43 ∷ 66 ∷ []

feed-Detected_example :
    Detected takes_all
      (feed takes_all plus 7 cleared typed []).result
      plus
      []
      typed
      0
      (feed takes_all plus 7 cleared typed [])
feed-Detected_example =
    feed-Detected takes_all plus 7 cleared typed [] [] (omega arith) (omega arith)
      (Tracks-nil plus (omega arith))

feed-Conserved_example :
    Conserved
      (feed takes_all plus 7 cleared typed []).result
      plus
      (flatten [] ++ [])
      typed
      0
      (feed takes_all plus 7 cleared typed [])
feed-Conserved_example =
    feed-Conserved takes_all plus 7 cleared typed [] (omega arith) (omega arith)
