-- ===== src/Crawl/Batches.antt =====
-- gossiper/webcrawler.go: the batches that fit into a packet.
use peerster.Base.{
  All, Bool-cases, List, [], ap, arith, inl, inr, length, ltb, refl, sym, true, ℕ, ◌++◌, ◌+◌, ◌<◌,
  ◌∙◌, ◌∷◌, ◌≡◌, ◌≤◌,
}
use mathlib.Core.List.{append-nil, append_assoc}
use peerster.Crawl.{batch_loop, create_udp_batches, udp_max_size}

module _ {A : Type 0} (item_length : A → ℕ) where
  abbrev pub total : List A → ℕ
  total [] = 0
  total (item ∷ items) = item_length item + total items

  total-append : (xs ys : List A) → total (xs ++ ys) ≡ total xs + total ys
  total-append [] ys = omega arith
  total-append (x ∷ xs) ys = omega (arith, total-append xs ys)

  -- One more item in the open packet.
  total-snoc :
      (xs : List A) (x : A) (n : ℕ) → n ≡ total xs → n + item_length x ≡ total (xs ++ x ∷ [])
  total-snoc xs x n e = omega (arith, e, total-append xs (x ∷ []))

  batch_loop-bounded :
      (items packet : List A) (n : ℕ)
      → n ≡ total packet
      → n < udp_max_size
      → All (λ b. total b < udp_max_size) (batch_loop item_length items packet n)
  unfolding batch_loop
  batch_loop-bounded [] packet n e h = elim (Bool-cases (ltb 0 (length packet))) [
    | inl some_ ↦ rw (batch_loop, some_) (omega (arith, e, h), tt)
    | inr empty ↦ rw (batch_loop, empty) tt
  ]
  batch_loop-bounded (item ∷ items) packet n e h =
      elim (Bool-cases (ltb (n + item_length item) udp_max_size)) [
        | inl fits ↦
            rw (batch_loop, fits)
              (batch_loop-bounded items (packet ++ item ∷ []) (n + item_length item)
                (total-snoc packet item n e) (ground (arith, fits)))
        | inr full ↦
            rw (batch_loop, full)
              (omega (arith, e, h), batch_loop-bounded items [] 0 refl (omega arith))
      ]

  -- The items of every batch together are smaller than 7500 bytes.
  pub create_udp_batches-bounded :
      (items : List A) → All (λ b. total b < udp_max_size) (create_udp_batches item_length items)
  create_udp_batches-bounded items = batch_loop-bounded items [] 0 refl (omega arith)

  batch_loop-joins :
      (items rest packet : List A) (n : ℕ)
      → n + total items < udp_max_size
      → batch_loop item_length (items ++ rest) packet n
        ≡ batch_loop item_length rest (packet ++ items) (n + total items)
  unfolding batch_loop
  batch_loop-joins [] rest packet n h =
      let same : n ≡ n + total [] = omega arith in
      ap (λ k. batch_loop item_length rest packet k) same
      ∙ ap (λ p. batch_loop item_length rest p (n + total [])) (sym (append-nil packet))
  batch_loop-joins (item ∷ items) rest packet n h =
      let fits : ltb (n + item_length item) udp_max_size ≡ true = ground (arith, h) in
      let sum : (n + item_length item) + total items ≡ n + total (item ∷ items) = omega arith in
      rw (fits) (
        batch_loop-joins items rest (packet ++ item ∷ []) (n + item_length item) (omega (arith, h))
        ∙ ap (λ k. batch_loop item_length rest ((packet ++ item ∷ []) ++ items) k) sum
        ∙ ap (λ p. batch_loop item_length rest p (n + total (item ∷ items)))
            (append_assoc packet (item ∷ []) items))

  -- Items that fit together become a batch when the next one does not fit with them, and that next item
  -- is in no batch: the batches go on with the items after it.
  pub create_udp_batches-drops :
      (items : List A) (item : A) (rest : List A)
      → total items < udp_max_size
      → udp_max_size ≤ total items + item_length item
      → create_udp_batches item_length (items ++ item ∷ rest)
        ≡ items ∷ create_udp_batches item_length rest
  unfolding batch_loop
  create_udp_batches-drops items item rest h full =
      batch_loop-joins items (item ∷ rest) [] 0 (omega (arith, h)) ∙ ground (arith, full)
