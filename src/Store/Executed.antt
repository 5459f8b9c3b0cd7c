-- ===== src/Store/Executed.antt =====
-- What the operations of the journal mean for the book of positions of PostgreSQL.
use mathlib.Core.Path.{fun_ext}
use okx_hft_executor.Prelude.{ℕ, ◌+◌, ◌≡◌, refl, ap, ◌∙◌, true, List, [], ◌∷◌, ◌++◌, str_eq}
use okx_hft_executor.Journal.Events.{
  Op, start_run, finish_run, signal, attempt, order_insert, order_update, order_fill, position_open,
  position_close, trade_result, service_event, reconciliation,
}
use okx_hft_executor.Journal.Rows.{Pg, Stamp}
use okx_hft_executor.Journal.Tables.{
  insert_run, update_run, insert_signal, insert_attempt, insert_order, update_order, insert_fill,
  insert_trade_result, insert_service_event, insert_reconciliation, execute, execute_all,
}
use okx_hft_executor.Store.Book.{Book, open_in, mark_in, pg_book, pg-open_in, pg-mark_in}

-- What an operation of the journal means for the book.
abbrev pub book_op : Op → Book → Book
book_op (position_open p) b =
    open_in p.position_id
      (record { opened = true; entry_price = p.entry_price; entry_ts = p.entry_ts; size = p.size })
      b
book_op (position_close p) b = mark_in p.position_id (str_eq p.status "open") b
book_op (start_run p) b = b
book_op (finish_run p) b = b
book_op (signal p) b = b
book_op (attempt p) b = b
book_op (order_insert p) b = b
book_op (order_update p) b = b
book_op (order_fill p) b = b
book_op (trade_result p) b = b
book_op (service_event p) b = b
book_op (reconciliation p) b = b

abbrev pub book_ops : List Op → Book → Book
book_ops [] b = b
book_ops (op ∷ ops) b = book_ops ops (book_op op b)

pub book_ops-append :
    (xs ys : List Op) (b : Book) → book_ops (xs ++ ys) b ≡ book_ops ys (book_ops xs b)
book_ops-append [] ys b = refl
book_ops-append (x ∷ xs) ys b = book_ops-append xs ys (book_op x b)

execute-book :
    (stamp : Stamp) (op : Op) (pg : Pg) → pg_book (execute stamp op pg) ≡ book_op op (pg_book pg)
unfolding execute insert_run update_run insert_signal insert_attempt insert_order update_order
    insert_fill insert_trade_result insert_service_event insert_reconciliation
execute-book stamp (position_open p) pg = fun_ext (pg-open_in stamp p pg)
execute-book stamp (position_close p) pg = fun_ext (pg-mark_in stamp p pg)
execute-book stamp (start_run p) pg = refl
execute-book stamp (finish_run p) pg = refl
execute-book stamp (signal p) pg = refl
execute-book stamp (attempt p) pg = refl
execute-book stamp (order_insert p) pg = refl
execute-book stamp (order_update p) pg = refl
execute-book stamp (order_fill p) pg = refl
execute-book stamp (trade_result p) pg = refl
execute-book stamp (service_event p) pg = refl
execute-book stamp (reconciliation p) pg = refl

-- Executing the operations in turn changes the book as they mean to.
pub execute_all-book :
    (clock : ℕ → Stamp) (n : ℕ) (ops : List Op) (pg : Pg)
    → pg_book (execute_all clock n ops pg) ≡ book_ops ops (pg_book pg)
unfolding execute_all
execute_all-book clock n [] pg = refl
execute_all-book clock n (op ∷ ops) pg =
    execute_all-book clock (n + 1) ops (execute (clock n) op pg)
    ∙ ap (book_ops ops) (execute-book (clock n) op pg)
