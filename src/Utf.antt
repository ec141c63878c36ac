-- ===== src/Utf.antt =====
-- utf.cpp: character sets, decoding, display widths and encoding. Bytes are numbers below 256, and
-- masks and shifts are written as `%` and `/`; `|` of disjoint bits is a sum.
pub mod Charset
pub mod Decode
pub mod Encode
pub mod RoundTrip
pub mod Write
pub mod Text
pub mod Lengths
pub mod Convert
pub mod Copy
pub mod State
pub mod Width
mod Examples
