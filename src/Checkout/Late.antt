-- ===== src/Checkout/Late.antt =====
-- Checkouts of one user that come after another one has recorded its session.
use block_feed_prototype.Prelude.{
  ◌≡◌, refl, ap, ◌∙◌, true, false, Option, none, some, List, [], ◌∷◌, String, string_eq, All,
}
use block_feed_prototype.Promise.{
  M, Post, Post-bind, Post-map, Post_of_OnOk, Post_of_Keeps, Keeps, pure, ◌>>=◌,
}
use block_feed_prototype.Db.Schema.{CheckoutSession, sessions_clash}
use block_feed_prototype.Db.Table.{Table, IsTable, In, Found}
use block_feed_prototype.Db.Rows.{In-All}
use block_feed_prototype.Db.Effects.{find_first_post, insert_ignore_post}
use block_feed_prototype.Checkout.Resolve.{Resolved}
use block_feed_prototype.Checkout.Transaction.{
  NewSession, has_reference, new_row, update_locked, replace_session, insert_session, save_session,
  url_of, current_url, record_session,
}
use block_feed_prototype.Checkout.Settled.{own, IsSettled, same_row, clash_of_own}

module _ {W : Type 0} (checkout_session : Table W CheckoutSession) (random_uuid : M W String)
    (rows : W → List CheckoutSession) (table : IsTable checkout_session rows sessions_clash)
    (uuids : Keeps rows random_uuid) where
  -- Whatever row the query finds, its URL is that of the session of the user.
  pub settled-current_url :
      (user_id : String) (reference : Option String) (url : String) (w : W)
      → IsSettled user_id reference url (rows w)
      → Post
          (current_url checkout_session random_uuid user_id w)
          (λ u w'. (u ≡ url) × (rows w' ≡ rows w))
  unfolding current_url url_of
  settled-current_url user_id reference url w s =
      Post-bind (λ o w'. Found (own user_id) (rows w) o × (rows w' ≡ rows w))
        (λ u w'. (u ≡ url) × (rows w' ≡ rows w)) (checkout_session.find_first (own user_id))
        (url_of checkout_session random_uuid) w
        (find_first_post checkout_session rows sessions_clash table (own user_id) w) answer
    where
      answer :
          (o : Option CheckoutSession) (w' : W)
          → Found (own user_id) (rows w) o × (rows w' ≡ rows w)
          → Post
              (url_of checkout_session random_uuid o w')
              (λ u w''. (u ≡ url) × (rows w'' ≡ rows w))
      answer none w' h = tt
      answer (some r) w' h = (
        ap (λ (x : CheckoutSession). x.url)
              (same_row user_id (rows w) r s.row s.one h.0.0 s.held h.0.1 s.owned)
            ∙ s.has_url,
        h.1,
      )

  pub settled-replace :
      (reference : Option String) (url : String) (new : NewSession) (w : W)
      → IsSettled new.customer_id reference url (rows w)
      → Post
          (replace_session checkout_session random_uuid reference new w)
          (λ _ w'. rows w' ≡ rows w)
  unfolding replace_session update_locked
  settled-replace reference url new w s =
      Post-bind
        (λ rs w'.
          All (λ r. In r (rows w) × (has_reference reference r ≡ true)) rs × (rows w' ≡ rows w))
        (λ _ w'. rows w' ≡ rows w) (checkout_session.select_for_update (has_reference reference))
        (update_locked checkout_session random_uuid reference new) w
        (Post_of_OnOk (λ rs. All (λ r. In r (rows w) × (has_reference reference r ≡ true)) rs) rows
          (checkout_session.select_for_update (has_reference reference) w) (rows w)
          (table.select_for_update_value (has_reference reference) w)
          (table.select_for_update_keeps (has_reference reference) w))
        locked
    where
      locked :
          (rs : List CheckoutSession) (w' : W)
          → All (λ r. In r (rows w) × (has_reference reference r ≡ true)) rs × (rows w' ≡ rows w)
          → Post
              (update_locked checkout_session random_uuid reference new rs w')
              (λ _ w''. rows w'' ≡ rows w)
      locked [] w' h = h.1
      locked (r ∷ rs) w' h =
          cc (In-All (λ r. has_reference reference r ≡ false) (rows w) s.replaced h.0.0.0, h.0.0.1)

  pub settled-insert :
      (url : String) (new : NewSession) (w : W)
      → IsSettled new.customer_id none url (rows w)
      → Post (insert_session checkout_session random_uuid new w) (λ _ w'. rows w' ≡ rows w)
  unfolding insert_session
  settled-insert url new w s =
      Post-bind (λ id w'. rows w' ≡ rows w) (λ _ w'. rows w' ≡ rows w) random_uuid
        (λ id. checkout_session.insert_ignore (new_row new id) >>= λ n. pure tt) w
        (Post_of_Keeps rows random_uuid w (rows w) uuids refl)
        (λ id w' same.
          Post-bind (λ n w''. rows w'' ≡ rows w) (λ _ w''. rows w'' ≡ rows w)
            (checkout_session.insert_ignore (new_row new id)) (λ n. pure tt) w'
            (insert_ignore_post checkout_session rows sessions_clash table (new_row new id) w'
              (λ after. after ≡ rows w)
              (rw (same, clash_of_own new id (rows w) s.row s.held s.owned) refl))
            (λ n w'' h. h))

  -- A transaction that comes late finds the old reference gone, or the row of the user in its way: it
  -- writes nothing.
  pub settled-save_session :
      (customer reference : Option String) (url : String) (new : NewSession) (w : W)
      → IsSettled new.customer_id reference url (rows w)
      → Post
          (save_session checkout_session random_uuid customer reference new w)
          (λ _ w'. rows w' ≡ rows w)
  unfolding save_session
  settled-save_session (some c) reference url new w s = settled-replace reference url new w s
  settled-save_session none (some reference) url new w s =
      settled-replace (some reference) url new w s
  settled-save_session none none url new w s = settled-insert url new w s

  pub settled-record_session :
      (result : Resolved) (url : String) (new : NewSession) (w : W)
      → IsSettled new.customer_id result.client_reference_id url (rows w)
      → Post
          (record_session checkout_session random_uuid result new w)
          (λ u w'. (u ≡ url) × (rows w' ≡ rows w))
  unfolding record_session
  settled-record_session result url new w s =
      Post-bind (λ _ w'. rows w' ≡ rows w) (λ u w'. (u ≡ url) × (rows w' ≡ rows w))
        (save_session checkout_session random_uuid result.stripe_customer_id
          result.client_reference_id new)
        (λ _. current_url checkout_session random_uuid new.customer_id) w
        (settled-save_session result.stripe_customer_id result.client_reference_id url new w s)
        (λ _ w' same.
          Post-map (λ u w''. (u ≡ url) × (rows w'' ≡ rows w')) _ _ (λ u w'' h. (h.0, h.1 ∙ same))
            (settled-current_url new.customer_id result.client_reference_id url w' (rw same s)))
