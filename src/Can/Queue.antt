-- ===== src/Can/Queue.antt =====
-- The queues of FreeRTOS as components/airlink_can/airlink_can.c uses them, without waiting.
use air_link.Base.{
  ℕ, ◌≤◌, ◌<◌, List, [], ◌∷◌, ◌++◌, ◌≡◌, Bool, true, false, Option, none, some, length,
}

-- `depth` is what `xQueueCreate` was given. `xQueueSend` answers whether there was room, `xQueueReceive` gives the item that waits longest.
pub record Queue (Item : Type 0) : Type 1 where
  pub Handle : Type 0
  pub depth : Handle → ℕ
  pub contents : Handle → List Item
  pub send : Handle → Item → Handle × Bool
  pub receive : Handle → Handle × Option Item
  pub send_room :
      (q : Handle) (item : Item)
      → length (contents q) < depth q
      → ((send q item).1 ≡ true) × (contents (send q item).0 ≡ contents q ++ item ∷ [])
  pub send_full :
      (q : Handle) (item : Item) → depth q ≤ length (contents q) → send q item ≡ (q, false)
  pub send_depth : (q : Handle) (item : Item) → depth (send q item).0 ≡ depth q
  pub receive_depth : (q : Handle) → depth (receive q).0 ≡ depth q
  pub receive_empty : (q : Handle) → contents q ≡ [] → receive q ≡ (q, none)
  pub receive_first :
      (q : Handle) (item : Item) (rest : List Item)
      → contents q ≡ item ∷ rest
      → ((receive q).1 ≡ some item) × (contents (receive q).0 ≡ rest)
