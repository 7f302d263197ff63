-- ===== src/Fencode.antt =====
-- flud/fencode.py: the encoding of Python values as URL-safe text, and its decoding.
pub mod Base64
pub mod Integers
pub mod Utf8
pub mod Values
pub mod Encode
pub mod Decode
pub mod Lengths
pub mod Parts
pub mod RoundTrip
pub mod Alphabet
mod Tests
