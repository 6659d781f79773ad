-- ===== src/Lockfile.antt =====
-- internal/lockfile: the pins that the lockfiles of npm, pnpm and yarn list. The lines of a text
-- and the document of a JSON file come from Go's standard library and are arguments.
pub mod Words
pub mod Pins
pub mod Pnpm
pub mod Yarn
pub mod Npm
