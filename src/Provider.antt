-- ===== src/Provider.antt =====
-- packages/provider-whatsapp/src: what the adapter of the provider makes of its answers.
pub mod Classification
pub mod Callback
