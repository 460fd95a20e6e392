-- ===== src/State.antt =====
-- programs/entros-voter-weight/src/state: the account types of the program.
pub mod Registrar
pub mod Action
