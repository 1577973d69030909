-- ===== src/Nlp.antt =====
-- nlp/: the server that parses utterances.
pub mod Service
pub mod Nlu
pub mod Learn
pub mod Proxy
