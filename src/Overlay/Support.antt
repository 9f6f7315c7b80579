-- ===== src/Overlay/Support.antt =====
-- The support chat: `PollSupportDataAsync` and the `Send...Async` functions. Each starts a thread,
-- which is one step here; the HTTP client is a parameter, from the URL to the answer.
mod Types
mod Tests
pub mod Poll
pub mod Send
pub use Types.*
