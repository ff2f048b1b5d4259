-- ===== src/Server/AppContext.antt =====
-- src/polodb/app_context.rs and session_context.rs. Cursors, handlers and transactions are parameters; a hash
-- map is a list of its entries. A session is shared by everyone who holds it: it is an address of the heap of
-- transactions, and so is what the map of the sessions holds.
use polo_db.Prelude.{
  ℕ, zero, suc, ◌+◌, ◌^◌, ◌%◌, ◌==◌, Bool, false, Option, none, some, List, [], ◌∷◌, ◌++◌, ◌⊎◌, inl,
  inr, length, get_elem?, if◌then◌else◌,
}
use polo_db.Prelude.Int.{ℤ, pos, negsuc}
use polo_db.Prelude.Bytes.{Bytes, str_eq}

unfoldable pub eq_ℤ : ℤ → ℤ → Bool
eq_ℤ (pos a) (pos b) = a == b
eq_ℤ (negsuc a) (negsuc b) = a == b
eq_ℤ _ _ = false

module _ {K V : Type 0} (same : K → K → Bool) where
  unfoldable pub lookup : K → List (K × V) → Option V
  lookup key [] = none
  lookup key ((k, v) ∷ entries) = if same key k then some v else lookup key entries

  unfoldable pub insert : K → V → List (K × V) → List (K × V)
  insert key value [] = (key, value) ∷ []
  insert key value ((k, v) ∷ entries) =
      if same key k then (key, value) ∷ entries else (k, v) ∷ insert key value entries

  unfoldable pub remove : K → List (K × V) → List (K × V)
  remove key [] = []
  remove key ((k, v) ∷ entries) =
      let rest = remove key entries in if same key k then rest else (k, v) ∷ rest

pub record AppContext (Cursor Handler Transaction : Type 0) : Type 0 where
  pub handlers : List Handler
  pub cursors : List (ℤ × Cursor)
  pub conn_id : ℕ
  pub session_ctx : List (Bytes × ℕ)
  pub transactions : List (Option Transaction)

-- for handler in handlers.iter()
unfoldable pub find_handler :
    {Error Handler : Type 0} → (Handler → Error ⊎ Bool) → List Handler → Error ⊎ Option Handler
find_handler test [] = inr none
find_handler test (handler ∷ handlers) = elim (test handler) [
  | inl e ↦ inl e
  | inr matched ↦ if matched then inr (some handler) else find_handler test handlers
]

-- for cursor_id in cursor_ids
unfoldable pub remove_each : {V : Type 0} → List ℤ → List (ℤ × V) → List (ℤ × V)
unfolding remove
remove_each [] cursors = cursors
remove_each (cursor_id ∷ cursor_ids) cursors =
    remove_each cursor_ids (remove eq_ℤ cursor_id cursors)

abbrev put_none : {A : Type 0} → ℕ → List (Option A) → List (Option A)
put_none i [] = []
put_none zero (x ∷ xs) = none ∷ xs
put_none (suc i) (x ∷ xs) = x ∷ put_none i xs

abbrev joined : {A : Type 0} → Option (Option A) → Option A
joined none = none
joined (some o) = o

module _ {Cursor Handler Transaction : Type 0} where
  unfoldable pub new : AppContext Cursor Handler Transaction
  new = record { handlers = []; cursors = []; conn_id = 0; session_ctx = []; transactions = [] }

  unfoldable pub register_handlers :
      AppContext Cursor Handler Transaction → List Handler → AppContext Cursor Handler Transaction
  register_handlers ctx handlers = record ctx { handlers = ctx.handlers ++ handlers }

  unfoldable pub get_handlers :
      {Error : Type 0}
      → AppContext Cursor Handler Transaction
      → (test : Handler → Error ⊎ Bool) → Error ⊎ Option Handler
  unfolding find_handler
  get_handlers ctx test = find_handler test ctx.handlers

  -- `fetch_add` gives the number before the addition, which wraps around.
  unfoldable pub next_conn_id :
      AppContext Cursor Handler Transaction → AppContext Cursor Handler Transaction × ℕ
  next_conn_id ctx = (record ctx { conn_id = (ctx.conn_id + 1) % 2 ^ 64 }, ctx.conn_id)

  unfoldable pub save_cursor :
      AppContext Cursor Handler Transaction → Cursor → AppContext Cursor Handler Transaction × ℤ
  unfolding insert
  save_cursor ctx cursor =
      let cursor_id = pos (length ctx.cursors + 1) in
      (record ctx { cursors = insert eq_ℤ cursor_id cursor ctx.cursors }, cursor_id)

  unfoldable pub get_cursor : AppContext Cursor Handler Transaction → ℤ → Option Cursor
  unfolding lookup
  get_cursor ctx cursor_id = lookup eq_ℤ cursor_id ctx.cursors

  unfoldable pub remove_cursor :
      AppContext Cursor Handler Transaction → List ℤ → AppContext Cursor Handler Transaction
  unfolding remove_each
  remove_cursor ctx cursor_ids = record ctx { cursors = remove_each cursor_ids ctx.cursors }

  -- The session that is made, and its address.
  unfoldable pub create_session :
      AppContext Cursor Handler Transaction
      → Bytes
      → Transaction
      → AppContext Cursor Handler Transaction × ℕ
  unfolding insert
  create_session ctx uuid txn =
      let session = length ctx.transactions in
      (
        record ctx {
          transactions = ctx.transactions ++ some txn ∷ [];
          session_ctx = insert str_eq uuid session ctx.session_ctx;
        },
        session,
      )

  unfoldable pub get_session : AppContext Cursor Handler Transaction → Bytes → Option ℕ
  unfolding lookup
  get_session ctx uuid = lookup str_eq uuid ctx.session_ctx

  unfoldable pub get_transaction : AppContext Cursor Handler Transaction → ℕ → Option Transaction
  get_transaction ctx session = joined (get_elem? ctx.transactions session)

  unfoldable pub clear_transaction :
      AppContext Cursor Handler Transaction → ℕ → AppContext Cursor Handler Transaction
  clear_transaction ctx session = record ctx { transactions = put_none session ctx.transactions }
