-- ===== src/Serializers.antt =====
-- The key-value serializers of orkbasecxx/serializers. Text is the list of its bytes.
pub mod Chars
pub mod Reader
pub mod Url
pub mod SingleLine
