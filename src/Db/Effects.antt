-- ===== src/Db/Effects.antt =====
-- What a call of a lawful table has done, as rules for a statement about its answer and the rows
-- that it leaves.
use block_feed_prototype.Prelude.{
  ℕ, ◌≡◌, Bool, false, List, [], ◌∷◌, ◌++◌, length, keep, ap, inl, inr, ◌∙◌,
}
use block_feed_prototype.Promise.{OnOk-map, Post, Post_of_state, Post_of_OnOk, Keeps, Result-cases}
use block_feed_prototype.Db.Table.{
  Table, IsTable, Found, update_rows, delete_rows, clashes_with, insert_ignore_row,
}

module _ {W Row : Type 0} (t : Table W Row) (rows : W → List Row) (clash : Row → Row → Bool)
    (table : IsTable t rows clash) where
  pub update_post :
      (f : Row → Row) (p : Row → Bool) (w : W) (Q : ℕ → List Row → Type 0)
      → Q (length (keep p (rows w))) (update_rows f p (rows w))
      → Post (t.update f p w) (λ n w'. Q n (rows w'))
  update_post f p w Q q =
      Post_of_state (λ n w'. Q n (rows w')) (t.update f p w)
        (OnOk-map
          (λ n.
            (n ≡ length (keep p (rows w))) × (rows (t.update f p w).1 ≡ update_rows f p (rows w)))
          (λ n. Q n (rows (t.update f p w).1)) (t.update f p w).0 (λ n h. rw (h.0, h.1) q)
          (table.update_value f p w))

  pub delete_post :
      (p : Row → Bool) (w : W) (Q : ℕ → List Row → Type 0)
      → Q (length (keep p (rows w))) (delete_rows p (rows w))
      → Post (t.delete p w) (λ n w'. Q n (rows w'))
  delete_post p w Q q =
      Post_of_state (λ n w'. Q n (rows w')) (t.delete p w)
        (OnOk-map
          (λ n. (n ≡ length (keep p (rows w))) × (rows (t.delete p w).1 ≡ delete_rows p (rows w)))
          (λ n. Q n (rows (t.delete p w).1)) (t.delete p w).0 (λ n h. rw (h.0, h.1) q)
          (table.delete_value p w))

  pub insert_post :
      (r : Row) (w : W) (Q : ℕ → List Row → Type 0)
      → (clashes_with clash r (rows w) ≡ false → Q 1 (rows w ++ r ∷ []))
      → Post (t.insert r w) (λ n w'. Q n (rows w'))
  insert_post r w Q q =
      Post_of_state (λ n w'. Q n (rows w')) (t.insert r w)
        (OnOk-map
          (λ n.
            (n ≡ 1)
            × (rows (t.insert r w).1 ≡ rows w ++ r ∷ [])
            × (clashes_with clash r (rows w) ≡ false))
          (λ n. Q n (rows (t.insert r w).1)) (t.insert r w).0 (λ n h. rw (h.0, h.1) (q h.2))
          (table.insert_value r w))

  pub insert_ignore_post :
      (r : Row) (w : W) (Q : List Row → Type 0)
      → Q (insert_ignore_row clash r (rows w))
      → Post (t.insert_ignore r w) (λ n w'. Q (rows w'))
  insert_ignore_post r w Q q =
      Post_of_state (λ n w'. Q (rows w')) (t.insert_ignore r w)
        (OnOk-map (λ n. rows (t.insert_ignore r w).1 ≡ insert_ignore_row clash r (rows w))
          (λ n. Q (rows (t.insert_ignore r w).1)) (t.insert_ignore r w).0 (λ n h. rw h q)
          (table.insert_ignore_value r w))

  pub find_first_post :
      (p : Row → Bool) (w : W)
      → Post (t.find_first p w) (λ o w'. Found p (rows w) o × (rows w' ≡ rows w))
  find_first_post p w =
      Post_of_OnOk (Found p (rows w)) rows (t.find_first p w) (rows w) (table.find_first_value p w)
        (table.find_first_keeps p w)

  -- An update leaves alone what its effect on the rows leaves alone, also if it fails.
  pub update-Keeps :
      {X : Type 0} (view : List Row → X) (f : Row → Row) (p : Row → Bool)
      → ((rs : List Row) → view (update_rows f p rs) ≡ view rs)
      → Keeps (λ w. view (rows w)) (t.update f p)
  update-Keeps view f p h w = elim (Result-cases (t.update f p w).0) [
    | inl (n, e) ↦ ap view (rw e at (table.update_value f p w)).1 ∙ h (rows w)
    | inr (x, e) ↦ ap view (table.update_failed f p w (x, e))
  ]
