-- ===== src/Ber.antt =====
-- The BER/DER decoder of listcerts: asn1_ber_decoder.c with asn1.h and asn1_ber_bytecode.h.
pub mod Run
pub mod Ends
pub mod Indefinite
pub mod Opcode
pub mod Calls
pub mod Safe
pub mod Decoder
