-- ===== src/Web/Json/RoundTrip.antt =====
-- Reading back what the JSON writer writes (src/web/json.cpp).
pub mod Strings
pub mod Digits
pub mod Numbers
pub mod Elements
pub mod Values
