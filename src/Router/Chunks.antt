-- ===== src/Router/Chunks.antt =====
-- Transparent mode cuts a read into pieces that the endpoints' queues can hold.
use air_link.Base.{ℕ, zero, suc, ◌≤◌, ◌<◌, List, [], ◌∷◌, ◌++◌, ◌≡◌, refl, ap, ◌∙◌, arith}
use air_link.Base.{false, ◌==◌, length, take, drop, All, take-append-drop}
use air_link.Base.{length-take, length-drop}
use mathlib.Core.List.{flatten}
use air_link.Mavlink.{max_frame_size}
use air_link.Stream.{chunk_size}
use air_link.Router.State.{Router}
use air_link.Router.Slots.{update_slot}
use air_link.Router.Forward.{Send, route}
use air_link.Router.Ingest.{send_chunks, count_frame_in}

chunk_size-bounds :
    (n : ℕ) → 0 < n → (0 < chunk_size n 280) × (chunk_size n 280 ≤ n) × (chunk_size n 280 ≤ 280)
unfolding chunk_size
chunk_size-bounds n h = ground arith

module _ (send : Send) (from : ℕ) where
  -- Pieces are routed one after the other, each counted as a frame of the source.
  abbrev pub route_all : Router → List (List ℕ) → Router
  route_all r [] = r
  route_all r (piece ∷ pieces) =
      route_all (update_slot (route send r from piece false) from count_frame_in) pieces

  -- The pieces into which the bytes were cut.
  pub record Cut (bytes : List ℕ) (fuel : ℕ) : Type 0 where
    pub pieces : List (List ℕ)
    pub whole : flatten pieces ≡ bytes
    pub sized : All (λ piece. (0 < length piece) × (length piece ≤ 280)) pieces
    pub routed : (r : Router) → send_chunks send from fuel r bytes ≡ route_all r pieces

  no_pieces : (fuel : ℕ) → Cut [] fuel
  unfolding send_chunks flatten
  no_pieces zero = record { pieces = []; whole = refl; sized = tt; routed = λ r. refl }
  no_pieces (suc fuel) = record { pieces = []; whole = refl; sized = tt; routed = λ r. refl }

  -- One more piece in front.
  piece-Cut :
      (fuel x : ℕ) (xs : List ℕ)
      → let chunk = chunk_size (length (x ∷ xs)) max_frame_size in
        Cut (drop chunk (x ∷ xs)) fuel → Cut (x ∷ xs) (suc fuel)
  unfolding send_chunks flatten
  piece-Cut fuel x xs later = record {
    pieces = take chunk bytes ∷ later.pieces;
    whole = ap (λ t. take chunk bytes ++ t) later.whole ∙ take-append-drop chunk bytes;
    sized = (
      (
        omega (arith, bounds, length-take chunk bytes),
        omega (arith, bounds, length-take chunk bytes),
      ),
      later.sized,
    );
    routed = λ r. rw not_empty (later.routed _);
  }
    where
      bytes : List ℕ
      bytes = x ∷ xs

      chunk : ℕ
      chunk = chunk_size (length bytes) max_frame_size

      bounds : (0 < chunk) × (chunk ≤ length bytes) × (chunk ≤ 280)
      bounds = chunk_size-bounds (length bytes) (omega arith)

      not_empty : (length bytes == 0) ≡ false
      not_empty = ground arith

  send_chunks-Cut : (fuel : ℕ) (bytes : List ℕ) → length bytes ≤ fuel → Cut bytes fuel
  send_chunks-Cut fuel [] h = no_pieces fuel
  send_chunks-Cut zero (x ∷ xs) h = absurd (omega arith)
  send_chunks-Cut (suc fuel) (x ∷ xs) h =
      let chunk = chunk_size (length (x ∷ xs)) max_frame_size in
      piece-Cut fuel x xs (
        send_chunks-Cut fuel (drop chunk (x ∷ xs)) (
          omega
            (arith, chunk_size-bounds (length (x ∷ xs)) (omega arith), length-drop chunk (x ∷ xs))))

  -- The loop of transparent mode, with as much fuel as there are bytes, routes the pieces of a cut
  -- of the whole read: put together in order they are the bytes, none is empty and none is longer
  -- than the 280 bytes that a queue takes.
  pub send_chunks_lem : (bytes : List ℕ) → Cut bytes (length bytes)
  send_chunks_lem bytes = send_chunks-Cut (length bytes) bytes (omega arith)
