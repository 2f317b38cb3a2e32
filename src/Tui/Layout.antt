-- ===== src/Tui/Layout.antt =====
-- Lines of the terminal client: clients/tui/src/util/ansi-line.ts, and the tables of
-- clients/tui/src/markdown/render.ts. The width of a text is a parameter, a package's.
pub mod Columns
pub mod Lines
pub mod Tables
