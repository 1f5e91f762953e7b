-- ===== src/Examples/Webhooks.antt =====
-- The webhook handlers on the rows of two users.
use block_feed_prototype.Prelude.{refl, none, some, [], ◌∷◌, pos}
use block_feed_prototype.Promise.{Post}
use block_feed_prototype.Stripe.Types.{complete}
use block_feed_prototype.Webhooks.Inputs.{CreateData, UpdateData}
use block_feed_prototype.Webhooks.Create
use block_feed_prototype.Webhooks.Update
use block_feed_prototype.Webhooks.Remove
use block_feed_prototype.Webhooks.Ownership.{
  IsPatched, IsRemoval, update-IsPatched, remove-IsRemoval,
}
use block_feed_prototype.Webhooks.Created.{IsCreation, create-IsCreation}
use block_feed_prototype.Examples.World.{
  context, first_of-Keeps, first_of_range, start, webhooks_of, blockchains_of,
  webhook_table-IsTable, blockchain_table-IsTable,
}

abbrev changes : UpdateData
changes = record { url = none; max_blocks = some (pos 5); max_retries = none; timeout_ms = none }

update-IsPatched_example :
    Post
      (Update.handler (context complete) "w2" changes start)
      (λ n w'. IsPatched "ann" "w2" changes start.webhooks (webhooks_of w') n)
update-IsPatched_example =
    update-IsPatched (context complete) webhooks_of webhook_table-IsTable "w2" changes start

remove-IsRemoval_example :
    Post
      (Remove.handler (context complete) ("w2" ∷ "w4" ∷ []) start)
      (λ n w'. IsRemoval "ann" ("w2" ∷ "w4" ∷ []) start.webhooks (webhooks_of w') n)
remove-IsRemoval_example =
    remove-IsRemoval (context complete) webhooks_of webhook_table-IsTable ("w2" ∷ "w4" ∷ []) start

abbrev wanted : CreateData
wanted = record {
  url = "https://new";
  max_blocks = pos 1;
  max_retries = pos 0;
  timeout_ms = pos 100;
  blockchain_id = "eth";
}

create-IsCreation_example :
    Post (Create.handler (context complete) "4" wanted start) (λ uuid w'.
      IsCreation "ann" "4" wanted start.blockchains start.webhooks (webhooks_of w') uuid)
create-IsCreation_example =
    create-IsCreation (context complete) "4" wanted webhooks_of webhook_table-IsTable blockchains_of
      blockchain_table-IsTable.find_first_value (λ p w. refl)
      (record { uuid_keeps = λ w. refl; int_keeps = first_of-Keeps; int_range = first_of_range })
      start
