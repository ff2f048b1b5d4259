-- ===== src/Store/Durable/Instance.antt =====
-- A store to run the code on that tells what is durable from what a transaction holds: two lists of entries.
use polo_db.Prelude.{◌≡◌, refl, sym, ap, ◌∙◌, ◌∷◌}
use polo_db.Errors.{Outcome, ok}
use polo_db.Store.{Store}
use polo_db.Store.Durable.{Durability}
use polo_db.Store.Instance.{Entries, lookup, delete, list_store}

-- What the transaction holds, and what is durable.
abbrev pub Layers : Type 0
Layers = Entries × Entries

pub ok-injective : (t u : Layers) → ◌≡◌ {A = Outcome Layers} (ok t) (ok u) → t ≡ u
ok-injective t u h = cc

abbrev pub layered_store : Store
layered_store = record {
  Txn = Layers;
  lookup = λ t. lookup t.0;
  put = λ t k v. ok ((k, v) ∷ t.0, t.1);
  delete = λ t k. ok (delete t.0 k, t.1);
  commit = λ t. ok (t.0, t.0);
  rollback = λ t. ok (t.1, t.1);
  failed_commit = λ t. t;
  failed_rollback = λ t. t;
  lookup-commit = λ t u j h. ap (λ s. lookup s.0 j) (sym (ok-injective (t.0, t.0) u h));
  seek = λ t. list_store.seek t.0;
  after = λ t. list_store.after t.0;
  keys = λ t. list_store.keys t.0;
  lookup-keys = λ t. list_store.lookup-keys t.0;
  lookup-put = λ t u k v j h.
      ap (λ s. lookup s.0 j) (sym (ok-injective ((k, v) ∷ t.0, t.1) u h))
      ∙ list_store.lookup-put t.0 ((k, v) ∷ t.0) k v j refl;
  lookup-delete = λ t u k j h.
      ap (λ s. lookup s.0 j) (sym (ok-injective (delete t.0 k, t.1) u h))
      ∙ list_store.lookup-delete t.0 (delete t.0 k) k j refl;
  seek-some = λ t. list_store.seek-some t.0;
  seek-least = λ t. list_store.seek-least t.0;
  after-some = λ t. list_store.after-some t.0;
  after-least = λ t. list_store.after-least t.0;
}

abbrev pub layered : Durability layered_store
layered = record {
  durable = λ t. lookup t.1;
  durable-put = λ t u k v j h. ap (λ s. lookup s.1 j) (sym (ok-injective ((k, v) ∷ t.0, t.1) u h));
  durable-delete = λ t u k j h. ap (λ s. lookup s.1 j) (sym (ok-injective (delete t.0 k, t.1) u h));
  durable-commit = λ t u j h. ap (λ s. lookup s.1 j) (sym (ok-injective (t.0, t.0) u h));
  durable-rollback = λ t u j h. ap (λ s. lookup s.1 j) (sym (ok-injective (t.1, t.1) u h));
  lookup-rollback = λ t u j h. ap (λ s. lookup s.0 j) (sym (ok-injective (t.1, t.1) u h));
}
