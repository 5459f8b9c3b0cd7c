-- ===== src/Durable.antt =====
-- The loop of app/orchestrator.py together with the positions that its store keeps: what the
-- journal of the loop's calls says of the position that the loop holds in memory.
pub mod Calm
pub mod Managing
pub mod Leaving
pub mod Loop
pub mod Start
pub mod Delivered
use text.Mathlib.TextEquality.{eq_iff}
use okx_hft_executor.Prelude.{◌≡◌, refl, Option, none, some, arith}
use okx_hft_executor.Exchange.{ExchangeClient}
use okx_hft_executor.Position.{ActivePosition}
use okx_hft_executor.Orchestrator.World.{World}
use okx_hft_executor.Store.Book.{Book, entry_of, book_all}

-- The position is in the book: open, with its price, time and size.
abbrev pub IsIn : Option ActivePosition → Book → Type 0
IsIn none b = Unit
IsIn (some p) b = b p.position_id ≡ some (entry_of p)

module _ {X : ExchangeClient} (b : Book) where
  -- The book after the calls that the loop has made
  abbrev pub book_of : World X → Book
  book_of w = book_all w.journal b

  -- The position that the loop holds is in the book.
  abbrev pub IsStored : World X → Type 0
  IsStored w = IsIn w.active_position (book_of w)

  -- Neither the position nor the book has changed.
  pub record IsCalm (w w' : World X) : Type 0 where
    pub same_position : w'.active_position ≡ w.active_position
    pub same_book : book_of w' ≡ book_of w

  pub IsCalm-IsStored : (w w' : World X) → IsCalm w w' → IsStored w → IsStored w'
  IsCalm-IsStored w w' c h = rw (c.same_position, c.same_book) h
