-- ===== src/Mavlink/Framing.antt =====
-- `airlink_mavlink_parse_byte` over a whole frame.
use air_link.Base.{ℕ, ◌≤◌, ◌<◌, List, [], ◌∷◌, ◌++◌, ◌≡◌, refl, arith, ◌⊎◌}
use air_link.Base.{Option, none, some, ◌≢◌, length, set, take, take-set, get_or}
use air_link.Base.{length-append, ap, sym, ◌∙◌, append_assoc}
use mathlib.Core.Path.{subst}
use air_link.Mavlink.{Parser, Frame, store}
use air_link.Mavlink.{parse_byte}
use air_link.Mavlink.Bounds.{IsValid, parse_byte-IsValid}
use air_link.Mavlink.Step.{announced, Holds, Stepped, step, 8-le-announced}

-- The frames that a parser makes of a byte stream, as its callers' loops collect them.
abbrev collect : Option Frame → Parser × List Frame → Parser × List Frame
collect none out = out
collect (some frame) (p, frames) = (p, frame ∷ frames)

unfoldable pub parse_all : Parser → List ℕ → Parser × List Frame
parse_all p [] = (p, [])
parse_all p (byte ∷ rest) =
    let (p', result) = parse_byte p byte in collect result (parse_all p' rest)

announced-append : (xs ys : List ℕ) → 3 ≤ length xs → announced (xs ++ ys) ≡ announced xs
announced-append [] ys h = absurd (omega arith)
announced-append (a ∷ []) ys h = absurd (omega arith)
announced-append (a ∷ b ∷ []) ys h = absurd (omega arith)
announced-append (a ∷ b ∷ c ∷ r) ys h = refl

-- A complete frame of bytes: a start byte, and the size that its first bytes announce.
pub record IsFrame (bs : List ℕ) : Type 0 where
  pub starts : (get_or bs 0 0 ≡ 0xfe) ⊎ (get_or bs 0 0 ≡ 0xfd)
  pub complete : length bs ≡ announced bs

abbrev pub AllBytes : List ℕ → Type 0
AllBytes [] = Unit
AllBytes (x ∷ xs) = (x < 256) × AllBytes xs

-- No proper prefix of a frame is complete.
not_yet :
    (a : ℕ) (more : List ℕ) (x : ℕ) (later : List ℕ)
    → 0 < length later
    → length (a ∷ more ++ x ∷ later) ≡ announced (a ∷ more ++ x ∷ later)
    → length (a ∷ more ++ x ∷ []) ≢ announced (a ∷ more ++ x ∷ [])
not_yet a [] x later h e = λ q. absurd (omega (arith, 8-le-announced a [] x))
not_yet a (b ∷ more) x later h e =
    λ q. absurd (omega (arith, same, length-append more (x ∷ []), length-append more (x ∷ later)))
  where
    same : announced (a ∷ b ∷ more ++ x ∷ later) ≡ announced (a ∷ b ∷ more ++ x ∷ [])
    same =
        ap (λ l. announced (a ∷ b ∷ l)) (sym (append_assoc more (x ∷ []) later))
        ∙ announced-append (a ∷ b ∷ more ++ x ∷ []) later
            (omega (arith, length-append more (x ∷ [])))

-- A frame `bs` comes out, byte for byte, and the parser is between frames.
pub record Delivered (bs : List ℕ) (out : Parser × List Frame) : Type 0 where
  pub frame : Frame
  pub alone : out.1 ≡ frame ∷ []
  pub len : frame.length ≡ length bs
  pub same_bytes : take frame.length frame.bytes ≡ bs
  pub valid : IsValid out.0
  pub idle : out.0.length ≡ 0

last_byte :
    (p : Parser) (taken : List ℕ) (x : ℕ)
    → length taken ≡ announced taken
    → let (p', result) = parse_byte p x in
      Stepped taken p' result → Delivered taken (parse_all p (x ∷ []))
unfolding parse_all
last_byte p taken x e st = go (parse_byte p x) refl st
  where
    go :
        (r : Parser × Option Frame)
        → parse_byte p x ≡ r
        → Stepped taken r.0 r.1
        → Delivered taken (parse_all p (x ∷ []))
    go (q, none) eq (ne, h) = absurd (ne e)
    go (q, some f) eq (s, v, z, l, b) =
        subst (λ r. Delivered taken (collect r.1 (parse_all r.0 []))) (sym eq)
          (record { frame = f; alone = refl; len = l; same_bytes = b; valid = v; idle = z })

inner_byte :
    (p : Parser) (taken : List ℕ) (x : ℕ) (later bs : List ℕ)
    → length taken ≢ announced taken
    → ((q : Parser) → Holds q taken → Delivered bs (parse_all q later))
    → let (p', result) = parse_byte p x in
      Stepped taken p' result → Delivered bs (parse_all p (x ∷ later))
unfolding parse_all
inner_byte p taken x later bs ne k st = go (parse_byte p x) refl st
  where
    go :
        (r : Parser × Option Frame)
        → parse_byte p x ≡ r
        → Stepped taken r.0 r.1
        → Delivered bs (parse_all p (x ∷ later))
    go (q, none) eq (ne', h) =
        subst (λ r. Delivered bs (collect r.1 (parse_all r.0 later))) (sym eq) (k q h)
    go (q, some f) eq (s, v, z, l, b) = absurd (ne s)

consume :
    (later : List ℕ) (p : Parser) (a : ℕ) (more : List ℕ) (x : ℕ)
    → Holds p (a ∷ more)
    → (x < 256) × AllBytes later
    → length (a ∷ more ++ x ∷ later) ≡ announced (a ∷ more ++ x ∷ later)
    → Delivered (a ∷ more ++ x ∷ later) (parse_all p (x ∷ later))
consume [] p a more x h (lt, _) e = last_byte p _ x e (step p a more x lt h)
consume (y ∷ later) p a more x h (lt, all) e =
    inner_byte p (a ∷ more ++ x ∷ []) x (y ∷ later) _ (not_yet a more x (y ∷ later) (omega arith) e)
      (λ q held. rw (← append_assoc more (x ∷ []) (y ∷ later)) (
        consume later q a (more ++ x ∷ []) y held all
          (rw (append_assoc more (x ∷ []) (y ∷ later)) e)))
      (step p a more x lt h)

first_byte :
    (p : Parser) (a : ℕ)
    → IsValid p
    → p.length ≡ 0
    → a < 256
    → (a ≡ 0xfe) ⊎ (a ≡ 0xfd)
    → parse_byte p a ≡ (store p a, none)
unfolding parse_byte
first_byte p a v z lt s = ground arith

first_byte-Holds :
    (p : Parser) (a : ℕ)
    → IsValid p
    → p.length ≡ 0
    → a < 256
    → (a ≡ 0xfe) ⊎ (a ≡ 0xfd)
    → Holds (store p a) (a ∷ [])
unfolding store
first_byte-Holds p a v z lt s = record {
  valid = subst IsValid (ap (λ r. r.0) (first_byte p a v z lt s)) (parse_byte-IsValid p a lt v).0;
  count = ground arith;
  bytes = ap (λ n. take 1 (set p.buffer n a)) z ∙ take-set p.buffer 0 a (omega (arith, v.size));
  size = ground (arith, v.position);
}

-- Between frames, a complete MAVLink 1 or 2 frame fed byte by byte comes out exactly once, with
-- its length and all its bytes unchanged, and leaves the parser valid and between frames.
pub parse_all-frame :
    (p : Parser) (bs : List ℕ)
    → IsValid p
    → p.length ≡ 0
    → AllBytes bs
    → IsFrame bs
    → Delivered bs (parse_all p bs)
unfolding parse_all
parse_all-frame p [] v z all f = absurd (ground (arith, f.starts))
parse_all-frame p (a ∷ []) v z all f = absurd (omega (arith, f.complete))
parse_all-frame p (a ∷ b ∷ r) v z (lt, all) f =
    subst (λ t. Delivered (a ∷ b ∷ r) (collect t.1 (parse_all t.0 (b ∷ r))))
      (sym (first_byte p a v z lt f.starts))
      (consume r (store p a) a [] b (first_byte-Holds p a v z lt f.starts) all f.complete)
