-- ===== src/Checkout/Serial.antt =====
-- Several checkouts of one user, whose transactions run one after another.
use block_feed_prototype.Prelude.{
  ◌≤◌, ◌≡◌, refl, ◌∙◌, Bool, true, false, Option, none, some, List, [], ◌∷◌, String, string_eq,
  keep, All, All-of,
}
use block_feed_prototype.Promise.{
  M, OnOk, Post, Post-bind, Post_of_OnOk, Post_of_Keeps, Keeps, pure, ◌>>=◌,
}
use block_feed_prototype.Db.Schema.{CheckoutSession, sessions_clash}
use block_feed_prototype.Db.Table.{Table, IsTable, Found}
use block_feed_prototype.Db.Effects.{find_first_post, update_post, insert_ignore_post}
use block_feed_prototype.Checkout.Resolve.{Resolved}
use block_feed_prototype.Checkout.Transaction.{
  NewSession, has_reference, overwrite, new_row, update_locked, replace_session, insert_session,
  save_session, url_of, current_url, record_session,
}
use block_feed_prototype.Checkout.Settled.{
  own, sessions_of, IsSettled, sessions_of-overwrite, overwrite-replaced, kept_none,
  sessions_of-insert,
}
use block_feed_prototype.Checkout.Late.{settled-record_session}

-- Transactions of checkouts that were resolved alike, one after another; the URLs that they return.
unfoldable pub record_sessions :
    {W : Type 0}
    → Table W CheckoutSession
    → M W String
    → Resolved
    → List NewSession
    → M W (List String)
unfolding record_session
record_sessions checkout_session random_uuid result [] = pure []
record_sessions checkout_session random_uuid result (new ∷ news) = do
  url ← record_session checkout_session random_uuid result new
  urls ← record_sessions checkout_session random_uuid result news
  pure (url ∷ urls)

-- A session of this user, under a new reference.
abbrev pub IsNew : String → Option String → NewSession → Type 0
IsNew user_id reference new =
    (new.customer_id ≡ user_id) × (has_reference reference (new_row new "") ≡ false)

module _ {W : Type 0} (checkout_session : Table W CheckoutSession) (random_uuid : M W String)
    (rows : W → List CheckoutSession) (table : IsTable checkout_session rows sessions_clash)
    (uuids : Keeps rows random_uuid) where
  -- The first transaction: no other has locked the old session, so the query finds all of its rows.
  module _
      (unlocked : (p : CheckoutSession → Bool) (w : W)
        → OnOk (checkout_session.select_for_update p w).0 (λ rs. rs ≡ keep p (rows w))) where
    -- What the resolution of a user with one session at most has seen.
    Fresh : String → Option String → NewSession → List CheckoutSession → Type 0
    Fresh user_id reference new rs =
        IsNew user_id reference new
        × (sessions_of user_id rs ≤ 1)
        × All (λ r. has_reference reference r ≡ true → own user_id r ≡ true) rs

    Saved : String → Option String → List CheckoutSession → Type 0
    Saved user_id reference rs =
        (sessions_of user_id rs ≤ 1) × All (λ r. has_reference reference r ≡ false) rs

    replace_session-Saved :
        (reference : Option String) (new : NewSession) (w : W)
        → Fresh new.customer_id reference new (rows w)
        → Post
            (replace_session checkout_session random_uuid reference new w)
            (λ _ w'. Saved new.customer_id reference (rows w'))
    unfolding replace_session update_locked Fresh Saved
    replace_session-Saved reference new w f =
        Post-bind (λ rs w'. (rs ≡ keep (has_reference reference) (rows w)) × (rows w' ≡ rows w))
          (λ _ w'. Saved new.customer_id reference (rows w'))
          (checkout_session.select_for_update (has_reference reference))
          (update_locked checkout_session random_uuid reference new) w
          (Post_of_OnOk (λ rs. rs ≡ keep (has_reference reference) (rows w)) rows
            (checkout_session.select_for_update (has_reference reference) w) (rows w)
            (unlocked (has_reference reference) w)
            (table.select_for_update_keeps (has_reference reference) w))
          locked
      where
        locked :
            (rs : List CheckoutSession) (w' : W)
            → (rs ≡ keep (has_reference reference) (rows w)) × (rows w' ≡ rows w)
            → Post
                (update_locked checkout_session random_uuid reference new rs w')
                (λ _ w''. Saved new.customer_id reference (rows w''))
        locked [] w' h = rw h.1 (f.1, kept_none (has_reference reference) (rows w) h.0)
        locked (r ∷ rs) w' h =
            Post-bind (λ n w''. Saved new.customer_id reference (rows w''))
              (λ _ w''. Saved new.customer_id reference (rows w''))
              (checkout_session.update (overwrite new) (has_reference reference)) (λ n. pure tt) w'
              (update_post checkout_session rows sessions_clash table (overwrite new)
                (has_reference reference) w' (λ n after. Saved new.customer_id reference after)
                (rw (h.1, sessions_of-overwrite new (has_reference reference) (rows w) f.2)
                  (f.1, overwrite-replaced reference new (rows w) f.0.1)))
              (λ n w'' s. s)

    insert_session-Saved :
        (new : NewSession) (w : W)
        → Fresh new.customer_id none new (rows w)
        → Post
            (insert_session checkout_session random_uuid new w)
            (λ _ w'. Saved new.customer_id none (rows w'))
    unfolding insert_session Fresh Saved
    insert_session-Saved new w f =
        Post-bind (λ id w'. rows w' ≡ rows w) (λ _ w'. Saved new.customer_id none (rows w'))
          random_uuid (λ id. checkout_session.insert_ignore (new_row new id) >>= λ n. pure tt) w
          (Post_of_Keeps rows random_uuid w (rows w) uuids refl)
          (λ id w' same.
            Post-bind (λ n w''. Saved new.customer_id none (rows w''))
              (λ _ w''. Saved new.customer_id none (rows w''))
              (checkout_session.insert_ignore (new_row new id)) (λ n. pure tt) w'
              (insert_ignore_post checkout_session rows sessions_clash table (new_row new id) w'
                (λ after. Saved new.customer_id none after)
                (rw same (
                  sessions_of-insert new id (rows w) f.1,
                  All-of (λ r. has_reference none r ≡ false) (λ r. refl) _,
                )))
              (λ n w'' h. h))

    save_session-Saved :
        (customer reference : Option String) (new : NewSession) (w : W)
        → Fresh new.customer_id reference new (rows w)
        → Post
            (save_session checkout_session random_uuid customer reference new w)
            (λ _ w'. Saved new.customer_id reference (rows w'))
    unfolding save_session
    save_session-Saved (some c) reference new w f = replace_session-Saved reference new w f
    save_session-Saved none (some reference) new w f =
        replace_session-Saved (some reference) new w f
    save_session-Saved none none new w f = insert_session-Saved new w f

    first-current_url :
        (user_id : String) (reference : Option String) (w : W)
        → Saved user_id reference (rows w)
        → Post
            (current_url checkout_session random_uuid user_id w)
            (λ u w'. IsSettled user_id reference u (rows w'))
    unfolding current_url url_of Saved
    first-current_url user_id reference w s =
        Post-bind (λ o w'. Found (own user_id) (rows w) o × (rows w' ≡ rows w))
          (λ u w'. IsSettled user_id reference u (rows w'))
          (checkout_session.find_first (own user_id)) (url_of checkout_session random_uuid) w
          (find_first_post checkout_session rows sessions_clash table (own user_id) w) answer
      where
        answer :
            (o : Option CheckoutSession) (w' : W)
            → Found (own user_id) (rows w) o × (rows w' ≡ rows w)
            → Post
                (url_of checkout_session random_uuid o w')
                (λ u w''. IsSettled user_id reference u (rows w''))
        answer none w' h = tt
        answer (some r) w' h = rw h.1 (record {
          one = s.0;
          row = r;
          held = h.0.0;
          owned = h.0.1;
          has_url = refl;
          replaced = s.1;
        })

    first-record_session :
        (result : Resolved) (new : NewSession) (w : W)
        → Fresh new.customer_id result.client_reference_id new (rows w)
        → Post
            (record_session checkout_session random_uuid result new w)
            (λ u w'. IsSettled new.customer_id result.client_reference_id u (rows w'))
    unfolding record_session
    first-record_session result new w f =
        Post-bind (λ _ w'. Saved new.customer_id result.client_reference_id (rows w')) _
          (save_session checkout_session random_uuid result.stripe_customer_id
            result.client_reference_id new)
          (λ _. current_url checkout_session random_uuid new.customer_id) w
          (save_session-Saved result.stripe_customer_id result.client_reference_id new w f)
          (λ _ w' s. first-current_url new.customer_id result.client_reference_id w' s)

    settled-record_sessions :
        (user_id url : String) (result : Resolved) (news : List NewSession) (w : W)
        → All (IsNew user_id result.client_reference_id) news
        → IsSettled user_id result.client_reference_id url (rows w)
        → Post
            (record_sessions checkout_session random_uuid result news w)
            (λ urls w'. All (λ u. u ≡ url) urls × (rows w' ≡ rows w))
    unfolding record_sessions
    settled-record_sessions user_id url result [] w n s = (tt, refl)
    settled-record_sessions user_id url result (new ∷ news) w n s =
        Post-bind (λ u w'. (u ≡ url) × (rows w' ≡ rows w)) _
          (record_session checkout_session random_uuid result new)
          (λ u.
            record_sessions checkout_session random_uuid result news >>= λ urls. pure (u ∷ urls))
          w
          (settled-record_session checkout_session random_uuid rows table uuids result url new w
            (rw n.0.0 s))
          (λ u w' h.
            Post-bind (λ urls w''. All (λ u. u ≡ url) urls × (rows w'' ≡ rows w')) _
              (record_sessions checkout_session random_uuid result news) (λ urls. pure (u ∷ urls))
              w' (settled-record_sessions user_id url result news w' n.1 (rw h.1 s))
              (λ urls w'' k. ((h.0, k.0), k.1 ∙ h.1)))

    -- Checkouts of one user that were all resolved before the first of them recorded its session, and
    -- whose transactions then run one after another with no row locked by anybody else, all return the
    -- same URL, the one of the single session that the user then has: if the user had one session at
    -- most, none but the user has the old reference, and each new reference differs from it.
    pub record_sessions_agree :
        (user_id : String) (result : Resolved) (new : NewSession) (news : List NewSession) (w : W)
        → sessions_of user_id (rows w) ≤ 1
        → All
            (λ r. has_reference result.client_reference_id r ≡ true → own user_id r ≡ true)
            (rows w)
        → All (IsNew user_id result.client_reference_id) (new ∷ news)
        → Post (record_sessions checkout_session random_uuid result (new ∷ news) w) (λ urls w'.
          (url : String) × All (λ u. u ≡ url) urls
          × IsSettled user_id result.client_reference_id url (rows w'))
    unfolding record_sessions Fresh
    record_sessions_agree user_id result new news w one mine n =
        Post-bind (λ u w'. IsSettled user_id result.client_reference_id u (rows w')) _
          (record_session checkout_session random_uuid result new)
          (λ u.
            record_sessions checkout_session random_uuid result news >>= λ urls. pure (u ∷ urls))
          w
          (rw (← n.0.0)
            (first-record_session result new w ((refl, n.0.1), rw n.0.0 one, rw n.0.0 mine)))
          (λ u w' s.
            Post-bind (λ urls w''. All (λ v. v ≡ u) urls × (rows w'' ≡ rows w')) _
              (record_sessions checkout_session random_uuid result news) (λ urls. pure (u ∷ urls))
              w' (settled-record_sessions user_id u result news w' n.1 s)
              (λ urls w'' k. (u, (refl, k.0), rw k.1 s)))
