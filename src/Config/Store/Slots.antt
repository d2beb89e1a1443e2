-- ===== src/Config/Store/Slots.antt =====
-- What a write to the slots leaves to be read at a restart.
use air_link.Base.{
  ℕ, ◌+◌, ◌%◌, ◌≤◌, ◌<◌, ◌≡◌, ◌≢◌, refl, sym, ap, ◌∙◌, arith, true, false, Option, none, some, not,
  ◌&&◌, ◌==◌, leb,
}
use air_link.Base.{Bool-cases, if-both, inl, inr, ==_refl}
use air_link.MeshConfig.Nvs.{Place, slot_a, slot_b, Status}
use air_link.Config.Validate.{DeviceConfig, config_validate, config_v1_valid}
use air_link.Config.Validate.Accepts.{migrate_v1-Usable}
use air_link.Config.Store.{
  World, Blob, current, of_schema_1, other_length, Decoded, is_ok, config_magic, selected, place_of,
  check_slot, read_slot, write_record,
}

pub other : Place → Place
other slot_a = slot_b
other slot_b = slot_a

pub other-place_of : (g : ℕ) → other (place_of (g + 1)) ≡ place_of g
unfolding other place_of
other-place_of g = elim (Bool-cases (g % 2 == 1)) [
  | inl odd ↦ let even : ((g + 1) % 2 == 1) ≡ false = ground (arith, odd) in rw (odd, even) refl
  | inr even ↦ let odd : ((g + 1) % 2 == 1) ≡ true = ground (arith, even) in rw (even, odd) refl
]

pub other_ne : (p : Place) → other p ≢ p
unfolding other
other_ne slot_a e = cc
other_ne slot_b e = cc

-- A slot holds nothing of a later generation, and an accepted configuration.
abbrev pub UpTo : ℕ → Option Decoded → Type 0
UpTo g none = Unit
UpTo g (some d) = d.generation ≤ g

abbrev pub Accepts : Option Decoded → Type 0
Accepts none = Unit
Accepts (some d) = config_validate d.config ≡ true

pub selected-Accepts : (a b : Option Decoded) → Accepts a → Accepts b → Accepts (selected a b)
unfolding selected
selected-Accepts none b p q = q
selected-Accepts (some a) none p q = p
selected-Accepts (some a) (some b) p q =
    if-both Accepts (leb b.generation a.generation) _ _ (λ _. p) (λ _. q)

-- The generation of the selected slot is the latest of both.
abbrev pub Latest : Option Decoded → Option Decoded → Option Decoded → Type 0
Latest a b none = (a ≡ none) × (b ≡ none)
Latest a b (some d) = UpTo d.generation a × UpTo d.generation b

pub selected-Latest : (a b : Option Decoded) → Latest a b (selected a b)
unfolding selected
selected-Latest none none = (refl, refl)
selected-Latest none (some b) = (tt, omega arith)
selected-Latest (some a) none = (omega arith, tt)
selected-Latest (some a) (some b) =
    if-both (Latest (some a) (some b)) (leb b.generation a.generation) _ _
      (λ le. (omega arith, ground (arith, le))) (λ gt. (ground (arith, gt), omega arith))

-- The slot of a later generation is selected.
pub selected-later :
    (read : Place → Option Decoded) (d : Decoded) (p : Place) (g : ℕ)
    → read p ≡ some d
    → UpTo g (read (other p))
    → g < d.generation
    → selected (read slot_a) (read slot_b) ≡ some d
unfolding selected other
selected-later read d slot_a g e u lt = rw e (on_b (read slot_b) u)
  where
    on_b : (o : Option Decoded) → UpTo g o → selected (some d) o ≡ some d
    on_b none u = refl
    on_b (some b) u =
        if-both (λ o. o ≡ some d) (leb b.generation d.generation) _ _ (λ _. refl)
          (λ bad. absurd (ground (arith, bad, u, lt)))
selected-later read d slot_b g e u lt = rw e (on_a (read slot_a) u)
  where
    on_a : (o : Option Decoded) → UpTo g o → selected o (some d) ≡ some d
    on_a none u = refl
    on_a (some a) u =
        if-both (λ o. o ≡ some d) (leb d.generation a.generation) _ _
          (λ bad. absurd (ground (arith, bad, u, lt))) (λ _. refl)

module _ (world : World) where
  check_slot-Accepts : (o : Option Blob) → Accepts (check_slot world o)
  unfolding check_slot
  check_slot-Accepts none = tt
  check_slot-Accepts (some other_length) = tt
  check_slot-Accepts (some (current r)) =
      if-both Accepts
        (r.magic == config_magic
          && r.crc32 == world.record_crc r.magic r.generation r.config
          && config_validate r.config)
        _ _ (λ good. ground (arith, good)) (λ _. tt)
  check_slot-Accepts (some (of_schema_1 r)) =
      if-both Accepts
        (r.magic == config_magic
          && r.crc32 == world.record_v1_crc r.magic r.generation r.config
          && config_v1_valid r.config)
        _ _ (λ good. (migrate_v1-Usable r.config (ground (arith, good))).0) (λ _. tt)

  pub read_slot-Accepts :
      (store : world.slots.Store) (p : Place) → Accepts (read_slot world store p)
  unfolding read_slot
  read_slot-Accepts store p = check_slot-Accepts (world.slots.get_blob store p)

  -- A write leaves the other slot alone.
  pub write_record-other :
      (store : world.slots.Store) (config : DeviceConfig) (g : ℕ) (p : Place)
      → p ≢ place_of g
      → read_slot world (write_record world store config g).0 p ≡ read_slot world store p
  unfolding write_record read_slot
  write_record-other store config g p ne =
      if-both Same (not (world.slots.opens store)) _ _ (λ _. refl)
        (λ _.
          if-both Same (not (world.slots.set_blob store (place_of g) _).1) _ _ (λ _. set)
            (λ _. ap (check_slot world) (world.slots.get_blob-commit _ p) ∙ set))
    where
      Same : world.slots.Store × Status → Type 0
      Same r =
          check_slot world (world.slots.get_blob r.0 p)
          ≡ check_slot world (world.slots.get_blob store p)

      set :
          check_slot world (
            world.slots.get_blob
              (world.slots.set_blob store (place_of g) (
                current (record {
                  magic = config_magic;
                  generation = g;
                  config = config;
                  crc32 = world.record_crc config_magic g config;
                }))).0
              p)
          ≡ check_slot world (world.slots.get_blob store p)
      set = ap (check_slot world) (world.slots.get_blob-set_blob_other store (place_of g) p _ ne)

  check_slot-record :
      (config : DeviceConfig) (g : ℕ)
      → config_validate config ≡ true
      → check_slot world (
          some (
            current (record {
              magic = config_magic;
              generation = g;
              config = config;
              crc32 = world.record_crc config_magic g config;
            })))
        ≡ some (record { generation = g; config = config; migrated = false })
  unfolding check_slot
  check_slot-record config g valid =
      rw (==_refl (world.record_crc config_magic g config), valid) refl

  -- After a write that succeeds, a restart reads what was there before in the other slot, and in
  -- its own what was written.
  pub write_record-restart :
      (store : world.slots.Store) (config : DeviceConfig) (g : ℕ) (p : Place)
      → is_ok (write_record world store config g).1 ≡ true
      → read_slot world (world.slots.restart (write_record world store config g).0) p
        ≡ read_slot world (write_record world store config g).0 p
  unfolding write_record read_slot is_ok
  write_record-restart store config g p =
      if-both Kept (not (world.slots.opens store)) _ _ (λ _ ok. absurd (cc))
        (λ _.
          if-both Kept (not (world.slots.set_blob store (place_of g) blob).1) _ _
            (λ _ ok. absurd (cc))
            (λ _.
              if-both (λ status. Kept ((world.slots.commit written).0, status))
                (world.slots.commit written).1 _ _
                (λ done _. ap (check_slot world) (
                  world.slots.get_blob-restart written p done
                  ∙ sym (world.slots.get_blob-commit written p)))
                (λ _ ok. absurd (cc))))
    where
      blob : Blob
      blob = current (record {
        magic = config_magic;
        generation = g;
        config = config;
        crc32 = world.record_crc config_magic g config;
      })

      written : world.slots.Store
      written = (world.slots.set_blob store (place_of g) blob).0

      Kept : world.slots.Store × Status → Type 0
      Kept r =
          is_ok r.1 ≡ true
          → check_slot world (world.slots.get_blob (world.slots.restart r.0) p)
            ≡ check_slot world (world.slots.get_blob r.0 p)

  -- A write that succeeds is read back.
  pub write_record-read :
      (store : world.slots.Store) (config : DeviceConfig) (g : ℕ)
      → config_validate config ≡ true
      → is_ok (write_record world store config g).1 ≡ true
      → read_slot world (write_record world store config g).0 (place_of g)
        ≡ some (record { generation = g; config = config; migrated = false })
  unfolding write_record read_slot is_ok
  write_record-read store config g valid =
      if-both Back (not (world.slots.opens store)) _ _ (λ _ ok. absurd (cc))
        (λ _.
          if-both Back (not (world.slots.set_blob store (place_of g) blob).1) _ _
            (λ _ ok. absurd (cc))
            (λ set _.
              ap (check_slot world) (
                world.slots.get_blob-commit _ (place_of g)
                ∙ world.slots.get_blob-set_blob store (place_of g) blob (ground (arith, set)))
              ∙ check_slot-record config g valid))
    where
      blob : Blob
      blob = current (record {
        magic = config_magic;
        generation = g;
        config = config;
        crc32 = world.record_crc config_magic g config;
      })

      Back : world.slots.Store × Status → Type 0
      Back r =
          is_ok r.1 ≡ true
          → check_slot world (world.slots.get_blob r.0 (place_of g))
            ≡ some (record { generation = g; config = config; migrated = false })
