-- ===== src/Routing.antt =====
-- pkg/routing: which agent, which session and which model tier a message gets.
pub mod AgentId
pub mod SessionKey
pub mod Route
pub mod Features
pub mod Classifier
pub mod Router
