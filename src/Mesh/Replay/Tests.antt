-- ===== src/Mesh/Replay/Tests.antt =====
-- The replay window at concrete packets.
use air_link.Base.{ℕ, List, [], ◌∷◌, ◌≡◌, refl, ◌∙◌, arith, true, false}
use air_link.Base.{inl, inr, bytes_eq, ◌⊎◌, replicate, if◌then◌else◌}
use air_link.Mesh.Bits.{bit-pow}
use air_link.Mesh.Replay.{Header, Window, empty_window, accept_in_session, replay_accept}
use air_link.Mesh.Replay.{enter_session, is_retired, retire, shifted}
use air_link.Mesh.Replay.Once.{occurs, Stands, is_new, accept_in_session-Stands}
use air_link.Mesh.Replay.Session.{
  accept_all, NoRepeat, accept_all-NoRepeat, InSession, replay_accept_in,
}
use air_link.Mesh.Replay.Retired.{
  accepted_of, left_sessions, left_after, Recent, left_session-rejected,
}

abbrev pub mac : List ℕ
mac = 2 ∷ 0 ∷ 0 ∷ 0 ∷ 0 ∷ 1 ∷ []

abbrev pub session : List ℕ
session = replicate 16 7

-- A window after the packet 5 of the session.
abbrev pub after_five : Window
after_five = record empty_window {
  initialized = true;
  source = mac;
  session_id = session;
  highest_sequence = 5;
  seen_bitmap = 1;
}

five-Stands : Stands after_five (5 ∷ [])
unfolding occurs
five-Stands = record {
  below = (omega arith, tt);
  top = ground arith;
  bits = λ d h. ground (arith, bit-pow 0 d);
}

accept_in_session-Stands_example :
    ((accept_in_session after_five 3).1 ≡ is_new after_five (5 ∷ []) 3)
    × Stands
        (accept_in_session after_five 3).0
        (if (accept_in_session after_five 3).1 then 3 ∷ 5 ∷ [] else 5 ∷ [])
    × (((accept_in_session after_five 3).1 ≡ true)
        ⊎ ((accept_in_session after_five 3).0 ≡ after_five))
accept_in_session-Stands_example = accept_in_session-Stands after_five (5 ∷ []) five-Stands 3

abbrev pub packet : ℕ → Header
packet s = record {
  magic = 0x314d_4c41;
  version = 1;
  type = 2;
  flags = 0;
  source = mac;
  destination = mac;
  session_id = session;
  sequence = s;
  payload_length = 0;
  reserved = 0;
}

-- The node's packet 6, with a payload of two bytes.
abbrev pub sent_header : Header
sent_header = record (packet 6) { type = 3; flags = 2; payload_length = 2 }

abbrev pub after_six : Window
after_six = record after_five { highest_sequence = 6; seen_bitmap = 3 }

pub six_accepted : replay_accept after_five sent_header ≡ (after_six, true)
unfolding accept_in_session shifted
six_accepted = replay_accept_in after_five sent_header started ∙ refl
  where
    started : InSession after_five mac session
    started = record { started = refl; same_source = refl; same_session = refl }

abbrev arrivals : List Header
arrivals = packet 3 ∷ packet 6 ∷ packet 3 ∷ packet 5 ∷ []

first_accepted : (replay_accept empty_window (packet 5)).1 ≡ true
unfolding replay_accept enter_session is_retired
first_accepted = refl

accept_all-NoRepeat_example :
    let (w, final) = accept_all (replay_accept empty_window (packet 5)).0 arrivals (5 ∷ []) in
    NoRepeat final × Stands w final
accept_all-NoRepeat_example =
    accept_all-NoRepeat empty_window (packet 5) arrivals (inl refl) first_accepted
      ((refl, refl), ((refl, refl), ((refl, refl), ((refl, refl), tt))))

-- The sender starts again and again with another session.
abbrev started_with : ℕ → Header
started_with = λ n. record (packet 0) { session_id = replicate 16 n }

abbrev last_started : Header
last_started = started_with 10

abbrev before_last : List Header
before_last = started_with 9 ∷ started_with 8 ∷ packet 5 ∷ []

abbrev starts : List Header
starts = packet 5 ∷ started_with 8 ∷ packet 6 ∷ started_with 9 ∷ last_started ∷ []

abbrev at_last : Window
at_last = (accepted_of empty_window starts []).0

all_accepted : accepted_of empty_window starts [] ≡ (at_last, last_started ∷ before_last)
unfolding accepted_of replay_accept enter_session is_retired retire bytes_eq
all_accepted = refl

-- The session of the first packets is the third one left.
third_left : Recent 3 (left_sessions (last_started ∷ before_last)) session
unfolding left_sessions left_after bytes_eq
third_left = inr (inr (inl refl))

left_session-rejected_example : replay_accept at_last (packet 9) ≡ (at_last, false)
left_session-rejected_example =
    left_session-rejected starts at_last last_started (packet 9) before_last all_accepted refl
      third_left
