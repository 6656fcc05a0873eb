-- ===== src/Index/Store/Tests.antt =====
-- A promotion at a concrete store.
use opcda_bridge.Base.{◌≡◌, refl, true, none, some, [], ◌∷◌, arith, String-discrete}
use opcda_bridge.Browse.{unspecified_organization, unspecified_source}
use opcda_bridge.Index.Store.{
  Generation, Store, Promotion, active, staged_row, count_where, update_where, promote_with_profile,
}
use opcda_bridge.Index.Store.Statements.{promotes, execute}
use opcda_bridge.Index.Store.Rows.{active_of}
use opcda_bridge.Index.Store.Active.{Inv, publish, commits}
use opcda_bridge.Index.Store.Refinement.{execute-publish}

abbrev first : Generation
first = record (staged_row "plant" 1 unspecified_organization unspecified_source "0") {
  state = active;
}

abbrev store : Store
store = record {
  generations = first ∷ staged_row "plant" 2 unspecified_organization unspecified_source "1" ∷ [];
  enrolled_servers = ("plant", true) ∷ [];
}

abbrev promotion : Promotion
promotion = record { completed_at = "2"; searchable_item_count = 5; profile = none; warning = none }

promoted_test :
    active_of "plant" (promote_with_profile "plant" 2 promotion store).0.generations ≡ some 2
unfolding active_of promote_with_profile update_where count_where String-discrete
promoted_test = refl

store-Inv : Inv store.generations
unfolding count_where
store-Inv = record { keyed = λ t g. ground arith; single = λ t. ground arith }

execute-publish_example :
    Inv (execute (promotes "plant" 2 promotion) store).generations
    × (active_of "plant" (execute (promotes "plant" 2 promotion) store).generations
        ≡ publish
            (promotes "plant" 2 promotion)
            (commits (promotes "plant" 2 promotion) store)
            (λ u. active_of u store.generations)
            "plant")
execute-publish_example = execute-publish (promotes "plant" 2 promotion) store "plant" store-Inv
