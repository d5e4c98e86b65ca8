-- ===== src/Tests/Logging.antt =====
-- What is logged of an object with a secret.
