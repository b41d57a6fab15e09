-- ===== src/Book.antt =====
-- crates/hft-book/src/lib.rs: parts of the order book. `Levels` is the sorted price directory of one
-- side, `Location` the packed location of an order, `Fifo` the queue of one price level, `Plan` the
-- bounded list of fills of a match, `Index` the index of the orders, `OrderBook` the book itself.
pub mod Levels
pub mod Location
pub mod Fifo
pub mod Plan
pub mod Index
pub mod OrderBook
