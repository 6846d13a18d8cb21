-- ===== src/Standings.antt =====
-- What the Result methods of internal/games/janken/janken.go and internal/games/echo/echo.go share:
-- the order of the players, and the places that follow from it. sort.Slice is an insertion sort:
-- its orders leave no two different players in a tie, so every sort gives the same list.
pub mod Orders
pub mod Sorting
pub mod Places
