-- ===== src/Executor.antt =====
-- src/executor: the encoding of an opportunity as a call, and its submission.
pub mod Encoder
pub mod Nonce
pub mod Sender
