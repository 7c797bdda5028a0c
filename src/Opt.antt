-- ===== src/Opt.antt =====
-- The option parser, fuse-2.8.5/lib/fuse_opt.c.
-- A C string is the list of its bytes, with no terminator. An allocation succeeds or fails as the
-- head of a list of outcomes says; past the end of the list all succeed.
pub mod Args
pub mod Options
pub mod Match
pub mod Process
pub mod Parse
pub mod Insert
pub mod RoundTrip
pub mod Template
pub mod Matched
pub mod Ahead
pub mod Total
pub mod Separator
mod Tests
