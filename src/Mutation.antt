-- ===== src/Mutation.antt =====
-- src/mutation.rs: the execution of a mutation, with its scope gate, its optimistic update and
-- rollback, its retries and its callbacks; `execute_mutation` of src/executor.rs is the one without
-- cache. Callbacks act on a state `W` of the program; what other tasks do while the mutation
-- waits is given by the surroundings.
pub mod Core
pub mod Running
pub mod Spawning
pub mod Attempts
pub mod Settling
pub mod Restoring
