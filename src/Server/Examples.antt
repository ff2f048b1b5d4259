-- ===== src/Server/Examples.antt =====
-- The state of the server, with numbers for its cursors and transactions.
use polo_db.Prelude.{false, arith, ℕ, ◌≡◌, refl, none, some, [], ◌∷◌}
use polo_db.Prelude.Int.{ℤ, pos}
use polo_db.Prelude.Bytes.{str, str_eq}
use polo_db.Server.AppContext.{
  AppContext, new, eq_ℤ, save_cursor, get_cursor, remove_cursor, create_session, get_session,
  get_transaction, clear_transaction,
}
use polo_db.Server.Cursors.{IsDense, save_cursor-fresh}

abbrev Context : Type 0
Context = AppContext ℕ ℕ ℕ

-- Two cursors are open, with the identifiers 1 and 2.
abbrev two_cursors : Context
unfolding new save_cursor
two_cursors = (save_cursor (save_cursor new 10).0 20).0

two_cursors-IsDense : IsDense two_cursors
unfolding new save_cursor get_cursor two_cursors eq_ℤ
two_cursors-IsDense n there = ground (arith, there)

save_cursor-fresh_example :
    (get_cursor two_cursors (pos 3) ≡ none)
    × (get_cursor (save_cursor two_cursors 30).0 (pos 3) ≡ some 30)
    × ((other : ℤ)
        → eq_ℤ other (pos 3) ≡ false
        → get_cursor (save_cursor two_cursors 30).0 other ≡ get_cursor two_cursors other)
    × IsDense (save_cursor two_cursors 30).0
unfolding save_cursor two_cursors eq_ℤ
save_cursor-fresh_example = save_cursor-fresh two_cursors 30 two_cursors-IsDense

-- After the first of two cursors is removed, the next that is saved takes the place of the second.
second_cursor_lost :
    get_cursor (save_cursor (remove_cursor two_cursors (pos 1 ∷ [])) 30).0 (pos 2) ≡ some 30
unfolding save_cursor remove_cursor get_cursor two_cursors eq_ℤ
second_cursor_lost = refl

abbrev in_session : Context
unfolding new create_session
in_session = (create_session new (str "u") 5).0

-- A transaction that is cleared in one place is gone for everyone who holds the session.
shared_session :
    (get_session in_session (str "u") ≡ some 0)
    × (get_transaction in_session 0 ≡ some 5)
    × (get_transaction (clear_transaction in_session 0) 0 ≡ none)
unfolding in_session get_session get_transaction clear_transaction str_eq
shared_session = (refl, refl, refl)
