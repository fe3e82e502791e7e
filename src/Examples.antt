-- ===== src/Examples.antt =====
-- runtime.c and chicken.h on concrete numbers: the tests, and the theorems applied.
mod Words
mod Digits
mod Integers
mod Overflow
mod Divide
mod Divrem
mod Bitwise
mod NumberText
mod Trace
mod Symbols
mod Interrupts
mod Lists
mod Random
