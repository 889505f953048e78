-- ===== src/Routing.antt =====
-- The routing policy of the number-translation server (src/as_app/routing): the rules document and
-- the loaded rule set, the pure decision, and the store that reloads the file.
pub mod Rules
pub mod Engine
pub mod Loading
