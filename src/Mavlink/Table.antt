-- ===== src/Mavlink/Table.antt =====
-- The table of checksum extras of airlink_mavlink.c and its binary search.
use air_link.Base.{ℕ, zero, suc, ◌+◌, ◌-◌, ◌/◌, List, [], ◌∷◌, Option, none, some}
use air_link.Base.{ltb, ◌==◌, if◌then◌else◌, length, get_elem?}

-- `CRC_EXTRAS`: the message id and its `crc_extra`.
abbrev pub crc_extras : List (ℕ × ℕ)
crc_extras =
    (0, 50)
    ∷ (1, 124)
    ∷ (2, 137)
    ∷ (4, 237)
    ∷ (11, 89)
    ∷ (20, 214)
    ∷ (21, 159)
    ∷ (22, 220)
    ∷ (23, 168)
    ∷ (24, 24)
    ∷ (25, 23)
    ∷ (26, 170)
    ∷ (27, 144)
    ∷ (29, 115)
    ∷ (30, 39)
    ∷ (31, 246)
    ∷ (32, 185)
    ∷ (33, 104)
    ∷ (35, 244)
    ∷ (36, 222)
    ∷ (37, 212)
    ∷ (38, 9)
    ∷ (39, 254)
    ∷ (40, 230)
    ∷ (41, 28)
    ∷ (42, 28)
    ∷ (43, 132)
    ∷ (44, 221)
    ∷ (45, 232)
    ∷ (46, 11)
    ∷ (47, 153)
    ∷ (51, 196)
    ∷ (62, 183)
    ∷ (65, 118)
    ∷ (66, 148)
    ∷ (69, 243)
    ∷ (70, 124)
    ∷ (73, 38)
    ∷ (74, 20)
    ∷ (75, 158)
    ∷ (76, 152)
    ∷ (77, 143)
    ∷ (82, 49)
    ∷ (84, 143)
    ∷ (86, 5)
    ∷ (109, 185)
    ∷ (110, 84)
    ∷ (111, 34)
    ∷ (125, 203)
    ∷ (126, 220)
    ∷ (147, 154)
    ∷ (148, 178)
    ∷ (152, 208)
    ∷ (193, 71)
    ∷ (230, 163)
    ∷ (231, 105)
    ∷ (241, 90)
    ∷ (242, 104)
    ∷ (245, 130)
    ∷ (253, 83)
    ∷ (254, 46)
    ∷ (256, 71)
    ∷ (257, 131)
    ∷ (258, 187)
    ∷ (259, 92)
    ∷ (260, 146)
    ∷ (261, 179)
    ∷ (262, 12)
    ∷ (263, 133)
    ∷ (264, 49)
    ∷ (265, 26)
    ∷ (266, 193)
    ∷ (267, 35)
    ∷ (268, 14)
    ∷ (269, 109)
    ∷ (270, 59)
    ∷ (280, 70)
    ∷ (281, 48)
    ∷ (282, 123)
    ∷ (283, 74)
    ∷ (284, 99)
    ∷ (285, 137)
    ∷ (286, 210)
    ∷ (287, 1)
    ∷ (288, 20)
    ∷ (299, 19)
    ∷ (301, 243)
    ∷ (310, 28)
    ∷ (311, 95)
    ∷ (320, 243)
    ∷ (321, 88)
    ∷ (322, 243)
    ∷ (323, 78)
    ∷ (324, 132)
    ∷ (330, 23)
    ∷ (331, 91)
    ∷ (332, 236)
    ∷ (333, 231)
    ∷ (334, 72)
    ∷ (335, 225)
    ∷ []

-- The loop of `crc_extra_for` between `low` and `high`, on fuel.
unfoldable pub search_between : List (ℕ × ℕ) → ℕ → ℕ → ℕ → ℕ → Option ℕ
search_between table id zero low high = none
search_between table id (suc fuel) low high =
    let mid = low + (high - low) / 2 in
    let above = search_between table id fuel (mid + 1) high in
    let below = search_between table id fuel low mid in
    if ltb low high
    then elim (get_elem? table mid) [
      | none ↦ none
      | some (key, extra) ↦ if key == id then some extra else if ltb key id then above else below
    ]
    else none

-- `crc_extra_for`: `some` is the result true with what `*extra` holds. The table's length bounds
-- the rounds.
unfoldable pub crc_extra_for : ℕ → Option ℕ
crc_extra_for id = search_between crc_extras id (length crc_extras) 0 (length crc_extras)
