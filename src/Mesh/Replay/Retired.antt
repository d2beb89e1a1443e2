-- ===== src/Mesh/Replay/Retired.antt =====
-- The last three sessions that a sender has left stay closed.
use air_link.Base.{ℕ, zero, suc, ◌+◌, ◌%◌, List, [], ◌∷◌, ◌≡◌, ◌≢◌, refl, sym, ap, ◌∙◌, arith}
use air_link.Base.{Bool, true, false, not, ◌||◌, inl, inr, Bool-cases, ◌⊎◌, if◌then◌else◌, ltb}
use air_link.Base.{bytes_eq, bytes_eq→eq, set, take, if-both}
use air_link.Base.{bit_and, bit_or, leb, ◌==◌, ◌-◌, ◌^◌}
use mathlib.Core.Path.{subst}
use air_link.Mesh.Replay.{
  Window, Header, empty_window, replay_accept, accept_in_session, enter_session, retire, is_retired,
}
use air_link.Mesh.Replay.Session.{bytes_same, bytes_other, InSession, replay_accept_in}

-- The packets accepted of a sequence, newest first, after those in `accepted`.
unfoldable pub accepted_of : Window → List Header → List Header → Window × List Header
accepted_of w [] accepted = (w, accepted)
accepted_of w (h ∷ rest) accepted =
    let (w', ok) = replay_accept w h in accepted_of w' rest (if ok then h ∷ accepted else accepted)

-- The sessions that the sender of the last accepted packet has left since packets of another one
-- were accepted, newest first, by the accepted packets alone.
unfoldable pub left_after : Header → List Header → List (List ℕ) → List (List ℕ)
left_after h [] before = []
left_after h (p ∷ rest) before =
    if bytes_eq p.source h.source
    then if bytes_eq p.session_id h.session_id then before else p.session_id ∷ before
    else []

unfoldable pub left_sessions : List Header → List (List ℕ)
left_sessions [] = []
left_sessions (h ∷ rest) = left_after h rest (left_sessions rest)

-- One of the first so many.
abbrev pub Recent : ℕ → List (List ℕ) → List ℕ → Type 0
Recent zero sessions session = ⊥
Recent (suc n) [] session = ⊥
Recent (suc n) (x ∷ xs) session = (session ≡ x) ⊎ Recent n xs session

-- The three places, how many are in use and which is next, against the sessions left.
data Ring : List (List ℕ) → ℕ → ℕ → List (List ℕ) → Type 0 where
  unused : (a b c : List ℕ) → Ring (a ∷ b ∷ c ∷ []) 0 0 []
  one_used : (a b c : List ℕ) → Ring (a ∷ b ∷ c ∷ []) 1 1 (a ∷ [])
  two_used : (a b c : List ℕ) → Ring (a ∷ b ∷ c ∷ []) 2 2 (b ∷ a ∷ [])
  next_first :
      (a b c : List ℕ) (rest : List (List ℕ)) → Ring (a ∷ b ∷ c ∷ []) 3 0 (c ∷ b ∷ a ∷ rest)
  next_second :
      (a b c : List ℕ) (rest : List (List ℕ)) → Ring (a ∷ b ∷ c ∷ []) 3 1 (a ∷ c ∷ b ∷ rest)
  next_third :
      (a b c : List ℕ) (rest : List (List ℕ)) → Ring (a ∷ b ∷ c ∷ []) 3 2 (b ∷ a ∷ c ∷ rest)

Ring-next :
    (ids : List (List ℕ)) (count next : ℕ) (left : List (List ℕ)) (session : List ℕ)
    → Ring ids count next left
    → Ring
        (set ids next session)
        (if ltb count 3 then count + 1 else count)
        ((next + 1) % 3)
        (session ∷ left)
Ring-next _ _ _ _ s (unused a b c) = one_used s b c
Ring-next _ _ _ _ s (one_used a b c) = two_used a s c
Ring-next _ _ _ _ s (two_used a b c) = next_first a b s []
Ring-next _ _ _ _ s (next_first a b c rest) = next_second s b c (a ∷ rest)
Ring-next _ _ _ _ s (next_second a b c rest) = next_third a s c (b ∷ rest)
Ring-next _ _ _ _ s (next_third a b c rest) = next_first a b s (c ∷ rest)

among : ℕ → List (List ℕ) → List ℕ → Bool
among zero sessions session = false
among (suc n) [] session = false
among (suc n) (x ∷ xs) session = bytes_eq x session || among n xs session

Recent-among :
    (n : ℕ) (l : List (List ℕ)) (session : List ℕ) → Recent n l session → among n l session ≡ true
unfolding among
Recent-among zero l session r = absurd r
Recent-among (suc n) [] session r = absurd r
Recent-among (suc n) (x ∷ xs) session (inl e) = ground (arith, bytes_same x session (sym e))
Recent-among (suc n) (x ∷ xs) session (inr r) = ground (arith, Recent-among n xs session r)

among-Recent :
    (n : ℕ) (l : List (List ℕ)) (session : List ℕ) → among n l session ≡ true → Recent n l session
unfolding among
among-Recent zero l session e = absurd (ground arith)
among-Recent (suc n) [] session e = absurd (ground arith)
among-Recent (suc n) (x ∷ xs) session e = elim (Bool-cases (bytes_eq x session)) [
  | inl here ↦ inl (sym (bytes_eq→eq x session here))
  | inr away ↦ inr (among-Recent n xs session (ground (arith, away, e)))
]

-- The loop over the places finds exactly the last three.
Ring-among :
    (ids : List (List ℕ)) (count next : ℕ) (left : List (List ℕ)) (session : List ℕ)
    → Ring ids count next left
    → is_retired (take count ids) session ≡ among 3 left session
unfolding is_retired among
Ring-among _ _ _ _ s (unused a b c) = refl
Ring-among _ _ _ _ s (one_used a b c) = refl
Ring-among _ _ _ _ s (two_used a b c) = ground arith
Ring-among _ _ _ _ s (next_first a b c rest) = ground arith
Ring-among _ _ _ _ s (next_second a b c rest) = ground arith
Ring-among _ _ _ _ s (next_third a b c rest) = ground arith

Recent-weaken :
    (n : ℕ) (l : List (List ℕ)) (session : List ℕ) → Recent n l session → Recent (suc n) l session
Recent-weaken zero l session r = absurd r
Recent-weaken (suc n) [] session r = absurd r
Recent-weaken (suc n) (x ∷ xs) session (inl e) = inl e
Recent-weaken (suc n) (x ∷ xs) session (inr r) = inr (Recent-weaken n xs session r)

-- The window is in the session of the last packet accepted, which is none of the last three left,
-- and its places hold those.
record Follows (w : Window) (p : Header) (rest : List Header) : Type 0 where
  inside : InSession w p.source p.session_id
  ring :
      Ring w.retired_session_ids w.retired_session_count w.retired_session_next
        (left_sessions (p ∷ rest))
  current : Recent 3 (left_sessions (p ∷ rest)) p.session_id → ⊥

-- Before any packet was accepted the window is the empty one.
abbrev Tracks : Window → List Header → Type 0
Tracks w [] = w ≡ empty_window
Tracks w (p ∷ rest) = Follows w p rest

-- A step with what it answers.
abbrev Keeps : Header → List Header → Window × Bool → Type 0
Keeps h accepted r = Tracks r.0 (if r.1 then h ∷ accepted else accepted)

-- The window after a new session was let in.
abbrev entered : Window → Header → Window
entered w h = record (retire w) {
  initialized = true;
  source = h.source;
  session_id = h.session_id;
  highest_sequence = h.sequence;
  seen_bitmap = 1;
}

empty-entered : (h : Header) → enter_session empty_window h ≡ (entered empty_window h, true)
unfolding enter_session is_retired
empty-entered h = refl

-- A new sender.
start-Follows :
    (h : Header) (accepted : List Header)
    → left_sessions (h ∷ accepted) ≡ []
    → Follows (entered empty_window h) h accepted
unfolding retire
start-Follows h accepted e = record {
  inside = record { started = refl; same_source = refl; same_session = refl };
  ring = subst (Ring _ 0 0) (sym e) (unused _ _ _);
  current = λ r. subst (λ l. Recent 3 l h.session_id) e r;
}

sender_differs :
    (w : Window) (h : Header)
    → (w.initialized ≡ false) ⊎ (w.source ≢ h.source)
    → replay_accept w h ≡ (entered empty_window h, true)
unfolding replay_accept
sender_differs w h new = rw (sender) (empty-entered h)
  where
    sender : (not w.initialized || not (bytes_eq w.source h.source)) ≡ true
    sender = elim new [
      | inl fresh ↦ ground (arith, fresh)
      | inr other ↦ ground (arith, bytes_other w.source h.source other)
    ]

-- Another session of the sender that the window follows.
session_differs :
    (w : Window) (h : Header)
    → w.initialized ≡ true
    → w.source ≡ h.source
    → w.session_id ≢ h.session_id
    → replay_accept w h ≡ enter_session w h
unfolding replay_accept
session_differs w h started src other = rw (sender, session)
  where
    sender : (not w.initialized || not (bytes_eq w.source h.source)) ≡ false
    sender = ground (arith, started, bytes_same w.source h.source src)

    session : (not w.initialized || not (bytes_eq w.session_id h.session_id)) ≡ true
    session = ground (arith, started, bytes_other w.session_id h.session_id other)

left_none :
    (h p : Header) (rest : List Header)
    → p.source ≡ h.source
    → p.session_id ≡ h.session_id
    → left_sessions (h ∷ p ∷ rest) ≡ left_sessions (p ∷ rest)
unfolding left_sessions left_after
left_none h p rest src ses =
    rw (bytes_same p.source h.source src, bytes_same p.session_id h.session_id ses) refl

left_one :
    (h p : Header) (rest : List Header)
    → p.source ≡ h.source
    → p.session_id ≢ h.session_id
    → left_sessions (h ∷ p ∷ rest) ≡ p.session_id ∷ left_sessions (p ∷ rest)
unfolding left_sessions left_after
left_one h p rest src other =
    rw (bytes_same p.source h.source src, bytes_other p.session_id h.session_id other) refl

left_all :
    (h p : Header) (rest : List Header) → p.source ≢ h.source → left_sessions (h ∷ p ∷ rest) ≡ []
unfolding left_sessions left_after
left_all h p rest other = rw (bytes_other p.source h.source other) refl

-- A packet of the session that the window is in.
same_session-Keeps :
    (w : Window) (h p : Header) (rest : List Header)
    → Follows w p rest
    → p.source ≡ h.source
    → p.session_id ≡ h.session_id
    → Keeps h (p ∷ rest) (replay_accept w h)
unfolding accept_in_session
same_session-Keeps w h p rest f src ses =
    subst (Keeps h (p ∷ rest)) (sym (replay_accept_in w h inside)) (
      if-both (Keeps h (p ∷ rest)) (ltb w.highest_sequence h.sequence) _ _ (λ _. further _ _)
        (λ _.
          let distance = w.highest_sequence - h.sequence in
          if-both (Keeps h (p ∷ rest))
            (leb 64 distance || not (bit_and w.seen_bitmap (2 ^ distance) == 0)) (w, false)
            (record w { seen_bitmap = bit_or w.seen_bitmap (2 ^ distance) }, true) (λ _. f)
            (λ _. further (bit_or w.seen_bitmap (2 ^ distance)) w.highest_sequence)))
  where
    inside : InSession w h.source h.session_id
    inside = record {
      started = f.inside.started;
      same_source = f.inside.same_source ∙ src;
      same_session = f.inside.same_session ∙ ses;
    }

    same_left : left_sessions (h ∷ p ∷ rest) ≡ left_sessions (p ∷ rest)
    same_left = left_none h p rest src ses

    further :
        (bitmap highest : ℕ)
        → Follows (record w { seen_bitmap = bitmap; highest_sequence = highest }) h (p ∷ rest)
    further bitmap highest = record {
      inside = record {
        started = inside.started;
        same_source = inside.same_source;
        same_session = inside.same_session;
      };
      ring = subst (Ring _ _ _) (sym same_left) f.ring;
      current = λ r. f.current (
          subst (λ l. Recent 3 l p.session_id) same_left
            (subst (Recent 3 (left_sessions (h ∷ p ∷ rest))) (sym ses) r));
    }

-- A packet of another session of the sender.
other_session-Keeps :
    (w : Window) (h p : Header) (rest : List Header)
    → Follows w p rest
    → p.source ≡ h.source
    → p.session_id ≢ h.session_id
    → Keeps h (p ∷ rest) (replay_accept w h)
unfolding enter_session retire
other_session-Keeps w h p rest f src other = subst (Keeps h (p ∷ rest)) (sym differs) (
    if-both (Keeps h (p ∷ rest))
      (is_retired (take w.retired_session_count w.retired_session_ids) h.session_id) _ _ (λ _. f)
      (λ open_session. rw f.inside.started (record {
        inside = record { started = refl; same_source = refl; same_session = refl };
        ring =
            subst (Ring _ _ _)
              (ap (λ s. s ∷ left_sessions (p ∷ rest)) f.inside.same_session ∙ sym one_more)
              (Ring-next _ _ _ _ w.session_id f.ring);
        current =
            λ r. absurd (not_recent open_session (subst (λ l. Recent 3 l h.session_id) one_more r));
      })))
  where
    differs : replay_accept w h ≡ enter_session w h
    differs =
        session_differs w h f.inside.started (f.inside.same_source ∙ src)
          (λ e. other (sym f.inside.same_session ∙ e))

    one_more : left_sessions (h ∷ p ∷ rest) ≡ p.session_id ∷ left_sessions (p ∷ rest)
    one_more = left_one h p rest src other

    not_recent :
        is_retired (take w.retired_session_count w.retired_session_ids) h.session_id ≡ false
        → Recent 3 (p.session_id ∷ left_sessions (p ∷ rest)) h.session_id
        → ⊥
    not_recent free (inl e) = other (sym e)
    not_recent free (inr r) =
        let found =
          Recent-among 3 (left_sessions (p ∷ rest)) h.session_id
            (Recent-weaken 2 (left_sessions (p ∷ rest)) h.session_id r) in
        ground (
          arith,
          free,
          found,
          Ring-among w.retired_session_ids w.retired_session_count w.retired_session_next
              (left_sessions (p ∷ rest)) h.session_id f.ring,
        )

other_sender-Keeps :
    (w : Window) (h p : Header) (rest : List Header)
    → Follows w p rest
    → p.source ≢ h.source
    → Keeps h (p ∷ rest) (replay_accept w h)
other_sender-Keeps w h p rest f other =
    subst (Keeps h (p ∷ rest))
      (sym (sender_differs w h (inr (λ e. other (sym f.inside.same_source ∙ e)))))
      (start-Follows h (p ∷ rest) (left_all h p rest other))

replay_accept-Keeps :
    (w : Window) (h : Header) (accepted : List Header)
    → Tracks w accepted
    → Keeps h accepted (replay_accept w h)
unfolding left_sessions left_after
replay_accept-Keeps w h [] e =
    subst (Keeps h []) (sym (sender_differs w h (inl (ap (λ (x : Window). x.initialized) e))))
      (start-Follows h [] refl)
replay_accept-Keeps w h (p ∷ rest) f = elim (Bool-cases (bytes_eq p.source h.source)) [
  | inr differs ↦
      other_sender-Keeps w h p rest f (λ e. absurd (ground (arith, differs, bytes_same _ _ e)))
  | inl same ↦ elim (Bool-cases (bytes_eq p.session_id h.session_id)) [
    | inl again ↦
        same_session-Keeps w h p rest f (bytes_eq→eq p.source h.source same)
          (bytes_eq→eq p.session_id h.session_id again)
    | inr switched ↦
        other_session-Keeps w h p rest f (bytes_eq→eq p.source h.source same)
          (λ e. absurd (ground (arith, switched, bytes_same _ _ e)))
  ]
]

accepted_of-Tracks :
    (packets : List Header) (w : Window) (accepted : List Header)
    → Tracks w accepted
    → let (w', final) = accepted_of w packets accepted in Tracks w' final
unfolding accepted_of
accepted_of-Tracks [] w accepted t = t
accepted_of-Tracks (h ∷ rest) w accepted t =
    accepted_of-Tracks rest _ _ (replay_accept-Keeps w h accepted t)

-- A packet of one of the last three sessions is refused.
Follows-rejects :
    (w : Window) (p g : Header) (rest : List Header)
    → Follows w p rest
    → g.source ≡ p.source
    → Recent 3 (left_sessions (p ∷ rest)) g.session_id
    → replay_accept w g ≡ (w, false)
unfolding enter_session
Follows-rejects w p g rest f src recent =
    session_differs w g f.inside.started (f.inside.same_source ∙ sym src) (λ e.
      f.current
        (subst (Recent 3 (left_sessions (p ∷ rest))) (sym e ∙ f.inside.same_session) recent))
    ∙ rw
        (Ring-among w.retired_session_ids w.retired_session_count w.retired_session_next
            (left_sessions (p ∷ rest)) g.session_id f.ring
          ∙ Recent-among 3 (left_sessions (p ∷ rest)) g.session_id recent)
        refl

-- Whatever packets arrived since the window was empty: with `p` the last that was accepted, every
-- packet of the same sender in one of the last three sessions that this sender has left, since a
-- packet of another sender was accepted, is rejected and leaves the window as it is. Which sessions
-- were left is said by the accepted packets alone: a session is left when the next accepted packet
-- is of another session.
pub left_session-rejected :
    (packets : List Header) (w : Window) (p g : Header) (rest : List Header)
    → accepted_of empty_window packets [] ≡ (w, p ∷ rest)
    → g.source ≡ p.source
    → Recent 3 (left_sessions (p ∷ rest)) g.session_id
    → replay_accept w g ≡ (w, false)
left_session-rejected packets w p g rest e src recent =
    Follows-rejects w p g rest
      (subst (λ (r : Window × List Header). Tracks r.0 r.1) e
        (accepted_of-Tracks packets empty_window [] refl))
      src recent
