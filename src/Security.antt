-- ===== src/Security.antt =====
-- The security server, libsepol/src/services.c: the evaluation of constraints and the access vectors
-- that a policy gives to two contexts, the contexts of new objects, and with libsepol/src/context.c the
-- contexts that are valid.
pub mod Constraint
pub mod TypeRules
pub mod Decision
pub mod Validity
pub mod Transition
