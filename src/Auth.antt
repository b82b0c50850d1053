-- ===== src/Auth.antt =====
-- Authentication: login with its lockout, sessions with rotating refresh tokens, and the tokens
-- that verify an email or reset a password. modules/auth/auth.service.ts
pub mod Types
pub mod Tokens
pub mod Lockout
pub mod Sessions
pub mod OneTime
pub mod Guessing
pub mod BruteForce
pub mod Rotation
pub mod Reset
pub mod Issue
pub mod Live
pub mod Register
pub mod Registered
