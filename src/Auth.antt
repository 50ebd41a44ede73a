-- ===== src/Auth.antt =====
-- Secrets, users and tokens (omnicode_core/auth and omnicode/llm/secret_box.py).
pub mod SecretBox
pub mod Rotation
pub mod Users
