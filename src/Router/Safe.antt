-- ===== src/Router/Safe.antt =====
-- No operation of the router makes a parser write outside its buffer or the ring of checksums be
-- indexed outside its array.
use air_link.Base.{ℕ, zero, suc, ◌+◌, ◌<◌, List, [], ◌∷◌, ◌≡◌, refl, sym, ap, ◌∙◌, arith, map}
use air_link.Base.{Bool, Option, none, some, true, false, inl, inr, Bool-cases}
use air_link.Base.{replicate, set, length, length-set, All, All-set, All-get_or}
use air_link.Mavlink.{fresh, Frame}
use air_link.Mavlink.Bounds.{IsValid as IsParser, fresh-IsValid}
use mathlib.Core.Path.{subst}
use air_link.Crc.{crc32}
use air_link.Router.State.{
  Err, invalid_state, esp_ok, no_mem, Slot, Sent, Router, empty_slot, RouteMode, Endpoint,
}
use air_link.Router.Slots.{slot_at, update_slot, find_endpoint, read_clock, register}
use air_link.Router.Slots.{unregister, set_mode, reset_parser, take_free}
use air_link.Router.Forward.{Send, route, route_from, count_send, eligible}
use air_link.Router.Observe.{observe_vehicle_frame}
use air_link.Router.Observe.{duplicate_network_frame, seen_recently}

-- The router's arrays have their sizes, and every slot's parser is valid.
pub record IsSafe (r : Router) : Type 0 where
  pub slots : length r.endpoints ≡ 16
  pub parsers : All (λ slot. IsParser slot.parser) r.endpoints
  pub ring : length r.dedup ≡ 32
  pub cursor : r.dedup_cursor < 32

abbrev pub GoodSlot : Slot → Type 0
GoodSlot slot = IsParser slot.parser

pub slot_at-GoodSlot : (r : Router) (i : ℕ) → IsSafe r → GoodSlot (slot_at r i)
slot_at-GoodSlot r i v = All-get_or GoodSlot r.endpoints i empty_slot fresh-IsValid v.parsers

pub update_slot-IsSafe :
    (r : Router) (i : ℕ) (f : Slot → Slot)
    → GoodSlot (f (slot_at r i))
    → IsSafe r
    → IsSafe (update_slot r i f)
unfolding update_slot
update_slot-IsSafe r i f p v = record {
  slots = length-set r.endpoints i _ ∙ v.slots;
  parsers = All-set GoodSlot r.endpoints i _ p v.parsers;
  ring = v.ring;
  cursor = v.cursor;
}

pub replicate-All : (n : ℕ) → All GoodSlot (replicate n empty_slot)
replicate-All zero = tt
replicate-All (suc n) = (fresh-IsValid, replicate-All n)

take_free-All :
    (slots : List Slot) (e : Endpoint) (s : List Slot)
    → take_free slots e ≡ some s
    → All GoodSlot slots
    → (length s ≡ length slots) × All GoodSlot s
unfolding take_free
take_free-All [] e s h v = cc
take_free-All (slot ∷ rest) e s h v = elim (Bool-cases slot.used) [
  | inr free ↦ go_free free
  | inl busy ↦ go_busy busy (take_free rest e) refl (λ s' q. take_free-All rest e s' q v.1)
]
  where
    out : slot.used ≡ false → s ≡ record slot { used = true; endpoint = e; parser = fresh } ∷ rest
    out free = ground arith

    go_free : slot.used ≡ false → (length s ≡ suc (length rest)) × All GoodSlot s
    go_free free = rw (out free) (refl, (fresh-IsValid, v.1))

    go_busy :
        slot.used ≡ true
        → (o : Option (List Slot)) → take_free rest e ≡ o
        → ((s' : List Slot)
            → take_free rest e ≡ some s'
            → (length s' ≡ length rest) × All GoodSlot s')
        → (length s ≡ suc (length rest)) × All GoodSlot s
    go_busy busy none q ih = absurd (ground arith)
    go_busy busy (some rest') q ih =
        let same : s ≡ slot ∷ rest' = ground arith in
        let (len, good) = ih rest' q in rw same (ap suc len, (v.0, good))

module _ (r : Router) (v : IsSafe r) where
  pub register-IsSafe : (e : Endpoint) → IsSafe (register r e).0
  unfolding register
  register-IsSafe e = go (find_endpoint r.endpoints e.id) (take_free r.endpoints e) refl
    where
      go :
          (found : Option ℕ) (taken : Option (List Slot))
          → take_free r.endpoints e ≡ taken
          → IsSafe
              (elim found as (λ _. Router × Err) [
                | some _ ↦ (r, invalid_state)
                | none ↦ elim taken [
                  | some slots ↦ (record r { endpoints = slots }, esp_ok)
                  | none ↦ (r, no_mem)
                ]
              ]).0
      go (some i) taken q = v
      go none none q = v
      go none (some slots) q =
          let (len, good) = take_free-All r.endpoints e slots q v.parsers in
          record { slots = len ∙ v.slots; parsers = good; ring = v.ring; cursor = v.cursor }

  pub unregister-IsSafe : (id : ℕ) → IsSafe (unregister r id)
  unfolding unregister
  unregister-IsSafe id = go (find_endpoint r.endpoints id)
    where
      go :
          (found : Option ℕ)
          → IsSafe (elim found [
            | some i ↦ record r { endpoints = set r.endpoints i empty_slot }
            | none ↦ r
          ])
      go none = v
      go (some i) = record {
        slots = length-set r.endpoints i _ ∙ v.slots;
        parsers = All-set GoodSlot r.endpoints i _ fresh-IsValid v.parsers;
        ring = v.ring;
        cursor = v.cursor;
      }

reset-All :
    (slots : List Slot)
    → (length (map reset_parser slots) ≡ length slots) × All GoodSlot (map reset_parser slots)
unfolding reset_parser
reset-All [] = (refl, tt)
reset-All (slot ∷ rest) = let (len, good) = reset-All rest in (ap suc len, (fresh-IsValid, good))

pub set_mode-IsSafe : (r : Router) (mode : RouteMode) → IsSafe r → IsSafe (set_mode r mode)
unfolding set_mode
set_mode-IsSafe r mode v =
    let (len, good) = reset-All r.endpoints in
    record { slots = len ∙ v.slots; parsers = good; ring = v.ring; cursor = v.cursor }

count_send-GoodSlot :
    (ok : Bool) (len : ℕ) (slot : Slot) → GoodSlot slot → GoodSlot (count_send ok len slot)
unfolding count_send
count_send-GoodSlot true len slot v = v
count_send-GoodSlot false len slot v = v

pub route_from-All :
    (send : Send) (source : Slot) (from : ℕ) (bytes : List ℕ) (high : Bool) (slots : List Slot)
    (to : ℕ) (sent : List Sent)
    → All GoodSlot slots
    → let out = (route_from send source from bytes high slots to sent).0 in
      (length out ≡ length slots) × All GoodSlot out
unfolding route_from
route_from-All send source from bytes high [] to sent v = (refl, tt)
route_from-All send source from bytes high (slot ∷ rest) to sent v =
    elim (Bool-cases (eligible source from slot to)) [
      | inl goes ↦
          let call : Sent = record { to = slot.endpoint.id; bytes = bytes; high_priority = high } in
          let (len, good) =
            route_from-All send source from bytes high rest (to + 1) (call ∷ sent) v.1 in
          rw goes (ap suc len, (count_send-GoodSlot _ _ slot v.0, good))
      | inr stays ↦
          let (len, good) = route_from-All send source from bytes high rest (to + 1) sent v.1 in
          rw stays (ap suc len, (v.0, good))
    ]

pub route-IsSafe :
    (send : Send) (r : Router) (from : ℕ) (bytes : List ℕ) (high : Bool)
    → IsSafe r
    → IsSafe (route send r from bytes high)
unfolding route
route-IsSafe send r from bytes high v =
    let (len, good) =
      route_from-All send (slot_at r from) from bytes high r.endpoints 0 r.sent v.parsers in
    record { slots = len ∙ v.slots; parsers = good; ring = v.ring; cursor = v.cursor }

pub observe-IsSafe :
    (clock : ℕ → ℕ) (r : Router) (source : Slot) (frame : Frame)
    → IsSafe r
    → IsSafe (observe_vehicle_frame clock r source frame)
unfolding observe_vehicle_frame read_clock
observe-IsSafe clock r source frame v = record {
  slots = ground (arith, v.slots);
  parsers = parts;
  ring = ground (arith, v.ring);
  cursor = ground (arith, v.cursor);
}
  where
    same : (observe_vehicle_frame clock r source frame).endpoints ≡ r.endpoints
    same = ground arith

    parts : All GoodSlot (observe_vehicle_frame clock r source frame).endpoints
    parts = subst (All GoodSlot) (sym same) v.parsers

pub duplicate-IsSafe :
    (clock : ℕ → ℕ) (r : Router) (bytes : List ℕ)
    → IsSafe r
    → IsSafe (duplicate_network_frame clock r bytes).0
unfolding duplicate_network_frame read_clock
duplicate-IsSafe clock r bytes v =
    elim (Bool-cases (seen_recently r.dedup (crc32 bytes) (clock r.readings))) [
      | inl seen ↦
          rw seen
            (record { slots = v.slots; parsers = v.parsers; ring = v.ring; cursor = v.cursor })
      | inr new ↦ rw new (record {
        slots = v.slots;
        parsers = v.parsers;
        ring = length-set r.dedup r.dedup_cursor _ ∙ v.ring;
        cursor = omega arith;
      })
    ]
