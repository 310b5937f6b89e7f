-- ===== src/World.antt =====
-- src/mnemonicos_game: the snapshot of the vault (data/models.py), the notes related to a note
-- (world/routing.py) and the scenes built from a snapshot (world/tilemap.py).
pub mod Models
pub mod Routing
pub mod Library
pub mod Hall
pub mod Vault
pub mod Grid
pub mod Crates
pub mod Shelves
