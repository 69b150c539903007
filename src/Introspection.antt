-- ===== src/Introspection.antt =====
-- introspection_manager: the class IntrospectionManagerNode.
pub mod Node
pub mod Hidden
pub mod Updates
mod Tests
