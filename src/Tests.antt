-- ===== src/Tests.antt =====
-- Runs of the models on concrete inputs, and the theorems at such inputs.
mod Ber
mod Oid
mod Grammar
mod Hotkeys
mod Smbios
mod Secure
mod Links
mod Tools
mod Crashvars
mod Parser
mod Edid
mod Comments
mod Renderer
mod Listcerts
