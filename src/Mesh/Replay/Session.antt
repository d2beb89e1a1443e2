-- ===== src/Mesh/Replay/Session.antt =====
-- `replay_accept` over the packets of a session, and when a sender starts another session.
use air_link.Base.{ℕ, ◌≤◌, List, [], ◌∷◌, ◌≡◌, sym, ap, ◌∙◌, arith, All}
use air_link.Base.{Bool, true, false, not, ◌||◌, inl, inr, Bool-cases, ◌⊎◌, if◌then◌else◌}
use air_link.Base.{bytes_eq, bytes_eq_refl, bytes_eq→eq, take, if-both, ◌≢◌, refl}
use mathlib.Core.Path.{subst}
use air_link.Mesh.Bits.{bit-pow}
use air_link.Mesh.Replay.{
  Window, Header, accept_in_session, replay_accept, enter_session, empty_window, is_retired,
}
use air_link.Mesh.Replay.Once.{Stands, occurs, is_new, accept_in_session-Stands}

pub bytes_other : (a b : List ℕ) → a ≢ b → bytes_eq a b ≡ false
bytes_other a b ne = elim (Bool-cases (bytes_eq a b)) [
  | inl same ↦ absurd (ne (bytes_eq→eq a b same))
  | inr other ↦ other
]

-- The window is in the session of the header.
pub record InSession (w : Window) (source session : List ℕ) : Type 0 where
  pub started : w.initialized ≡ true
  pub same_source : w.source ≡ source
  pub same_session : w.session_id ≡ session

pub bytes_same : (a b : List ℕ) → a ≡ b → bytes_eq a b ≡ true
bytes_same a b e = ap (λ x. bytes_eq x b) e ∙ bytes_eq_refl b

pub replay_accept_in :
    (w : Window) (h : Header)
    → InSession w h.source h.session_id
    → replay_accept w h ≡ accept_in_session w h.sequence
unfolding replay_accept
replay_accept_in w h i = rw (sender, session)
  where
    sender : (not w.initialized || not (bytes_eq w.source h.source)) ≡ false
    sender = ground (arith, i.started, bytes_same w.source h.source i.same_source)

    session : (not w.initialized || not (bytes_eq w.session_id h.session_id)) ≡ false
    session = ground (arith, i.started, bytes_same w.session_id h.session_id i.same_session)

accept_in_session-InSession :
    (w : Window) (s : ℕ) (source session : List ℕ)
    → InSession w source session
    → InSession (accept_in_session w s).0 source session
unfolding accept_in_session
accept_in_session-InSession w s source session i = record {
  started = ground (arith, i.started);
  same_source = ground (arith, i.same_source);
  same_session = ground (arith, i.same_session);
}

-- The numbers accepted of a sequence of packets, newest first, after those in `accepted`.
pub accept_all : Window → List Header → List ℕ → Window × List ℕ
accept_all w [] accepted = (w, accepted)
accept_all w (h ∷ rest) accepted =
    let (w', ok) = replay_accept w h in
    accept_all w' rest (if ok then h.sequence ∷ accepted else accepted)

abbrev pub NoRepeat : List ℕ → Type 0
NoRepeat [] = Unit
NoRepeat (x ∷ xs) = (occurs x xs ≡ false) × NoRepeat xs

occurs-le : (xs : List ℕ) (h x : ℕ) → All (λ s. s ≤ h) xs → occurs x xs ≡ true → x ≤ h
unfolding occurs
occurs-le [] h x all e = absurd (ground arith)
occurs-le (y ∷ xs) h x (le, all) e = ground (arith, occurs-le xs h x all)

-- A number that is new was not accepted before.
is_new-occurs :
    (w : Window) (accepted : List ℕ) (s : ℕ)
    → Stands w accepted
    → is_new w accepted s ≡ true
    → occurs s accepted ≡ false
is_new-occurs w accepted s v e = elim (Bool-cases (occurs s accepted)) [
  | inr absent ↦ absent
  | inl present ↦ ground (arith, occurs-le accepted w.highest_sequence s v.below present)
]

accept_rest-NoRepeat :
    (packets : List Header) (w : Window) (accepted source session : List ℕ)
    → InSession w source session
    → All (λ h. (h.source ≡ source) × (h.session_id ≡ session)) packets
    → Stands w accepted
    → NoRepeat accepted
    → let (w', final) = accept_all w packets accepted in NoRepeat final × Stands w' final
unfolding accept_all
accept_rest-NoRepeat [] w accepted source session i all v n = (n, v)
accept_rest-NoRepeat (h ∷ rest) w accepted source session i ((src, ses), all) v n =
    subst
      (λ r.
        let (w', final) = accept_all r.0 rest (if r.1 then h.sequence ∷ accepted else accepted) in
        NoRepeat final × Stands w' final)
      (sym (replay_accept_in w h here))
      (accept_rest-NoRepeat rest _ _ source session
        (accept_in_session-InSession w h.sequence source session i) all step.1 (longer _ step.0))
  where
    here : InSession w h.source h.session_id
    here = record {
      started = i.started;
      same_source = i.same_source ∙ sym src;
      same_session = i.same_session ∙ sym ses;
    }

    longer :
        (ok : Bool)
        → ok ≡ is_new w accepted h.sequence
        → NoRepeat (if ok then h.sequence ∷ accepted else accepted)
    longer true e = (is_new-occurs w accepted h.sequence v (sym e), n)
    longer false e = n

    step :
        let (w', ok) = accept_in_session w h.sequence in
        (ok ≡ is_new w accepted h.sequence)
        × Stands w' (if ok then h.sequence ∷ accepted else accepted)
        × ((ok ≡ true) ⊎ (w' ≡ w))
    step = accept_in_session-Stands w accepted v h.sequence

-- The window after the first packet of a session.
Opened : Header → Window × Bool → Type 0
Opened h r = r.1 ≡ true → InSession r.0 h.source h.session_id × Stands r.0 (h.sequence ∷ [])

enter_session-Opened : (w : Window) (h : Header) → Opened h (enter_session w h)
unfolding enter_session Opened occurs
enter_session-Opened w h =
    if-both (Opened h)
      (is_retired (take w.retired_session_count w.retired_session_ids) h.session_id) _ _
      (λ _ ok. absurd (cc))
      (λ _ _. (
        record { started = refl; same_source = refl; same_session = refl },
        record {
          below = (omega arith, tt);
          top = ground arith;
          bits = λ d lt. ground (arith, bit-pow 0 d);
        },
      ))

-- The window is not in the session of the header: it is new, or of another sender or session.
abbrev pub Enters : Window → Header → Type 0
Enters w h = (w.initialized ≡ false) ⊎ (w.source ≢ h.source) ⊎ (w.session_id ≢ h.session_id)

replay_accept-Opened : (w : Window) (h : Header) → Enters w h → Opened h (replay_accept w h)
unfolding replay_accept
replay_accept-Opened w h enters =
    elim (Bool-cases (not w.initialized || not (bytes_eq w.source h.source))) [
      | inl sender ↦ rw sender (enter_session-Opened empty_window h)
      | inr same ↦
          let session : (not w.initialized || not (bytes_eq w.session_id h.session_id)) ≡ true =
            other_session same in
          rw (same, session) (enter_session-Opened w h)
    ]
  where
    other_session :
        (not w.initialized || not (bytes_eq w.source h.source)) ≡ false
        → (not w.initialized || not (bytes_eq w.session_id h.session_id)) ≡ true
    other_session same = elim enters [
      | inl fresh ↦ absurd (ground (arith, same, fresh))
      | inr (inl sender) ↦ absurd (sender (bytes_eq→eq w.source h.source (ground (arith, same))))
      | inr (inr session) ↦ ground (arith, same, bytes_other w.session_id h.session_id session)
    ]

-- However the packets of one session arrive, in whatever order and however often each, no
-- sequence number is accepted twice: when a packet is accepted by a window that was not in its
-- session, whatever that window was, and any packets of the same sender and session follow, then
-- the numbers accepted, that of the first packet included, are all different, and the window stands
-- for them.
pub accept_all-NoRepeat :
    (w : Window) (first : Header) (packets : List Header)
    → Enters w first
    → (replay_accept w first).1 ≡ true
    → All (λ h. (h.source ≡ first.source) × (h.session_id ≡ first.session_id)) packets
    → let (w', final) = accept_all (replay_accept w first).0 packets (first.sequence ∷ []) in
      NoRepeat final × Stands w' final
unfolding Opened occurs
accept_all-NoRepeat w first packets enters ok all =
    let (inside, stands) = replay_accept-Opened w first enters ok in
    accept_rest-NoRepeat packets _ (first.sequence ∷ []) first.source first.session_id inside all
      stands (refl, tt)
