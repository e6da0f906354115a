-- ===== src/Strconv.antt =====
-- `strconv.Itoa` and `strconv.Atoi` of Go's standard library, as the controllers use them: the
-- CTFd ID of a resource is kept as text in its external name.
pub mod Digits
pub mod RoundTrip
